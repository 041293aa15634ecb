-- ===== src/BuildExecution/Execute/Run.antt =====
-- What the body of a buildable can do to the node that it builds.
use mathlib.Core.Path.{subst}
use mathlib.Core.Option.{some-injective}
use ppb.Prelude.{
  Option-cases, inl, inr, sym, ◌≡◌, ◌≢◌, refl, Bool, true, false, Option, none, some, List, [], ◌∷◌,
  arith,
}
use ppb.Containers.SetT.{append_uniq_lem}
use ppb.BuildNode.Dependencies.{alias_comparable, is_uniq-add, no_stamp}
use ppb.BuildNode.Node.{BuildNode, add_dynamic, add_output_file, add_output_node}
use mathlib.Core.Option
use ppb.BuildNode.Wellformed.{
  IsOrdered, IsWellformed, make_dirty_node-IsWellformed, add_dynamic-IsWellformed,
  add_output_file-IsWellformed, add_output_node-IsWellformed,
}
use ppb.BuildExecution.Environment.{BuildOp, need, output_file, output_node, timestamp, Environment}
use ppb.BuildExecution.Execute.{Building, apply_op, apply_ops, opened}

map-eq-some {ℓ κ} :
    {A : Type ℓ} {C : Type κ} (f : A → C) (o : Option A) (c : C)
    → Option.map f o ≡ some c
    → (a : A) × (o ≡ some a) × (c ≡ f a)
map-eq-some f none c e = cc
map-eq-some f (some a) c e = (a, refl, sym (some-injective _ _ e))

module _ {B : Type 0} where
  -- What a run of the body leaves alone, and the order that it keeps.
  pub record Keeps (x y : Building B) : Type 0 where
    pub alias : y.node.alias ≡ x.node.alias
    pub buildable : y.node.buildable ≡ x.node.buildable
    pub static : y.node.static ≡ x.node.static
    pub stamp : y.node.stamp ≡ x.node.stamp

  apply_op-Keeps :
      (debug : Bool) (x : Building B) (op : BuildOp) {y : Building B}
      → apply_op debug x op ≡ some y
      → Keeps x y
  unfolding apply_op add_dynamic add_output_file add_output_node
  apply_op-Keeps debug x (need r) e = ground arith
  apply_op-Keeps debug x (output_file r) e = ground arith
  apply_op-Keeps debug x (output_node a) e = ground arith
  apply_op-Keeps debug x (timestamp t) e = ground arith

  apply_op-IsOrdered :
      (debug : Bool) (x : Building B) (op : BuildOp) {y : Building B}
      → IsOrdered x.node
      → apply_op debug x op ≡ some y
      → IsOrdered y.node
  unfolding apply_op add_dynamic add_output_file add_output_node
  apply_op-IsOrdered debug x (need r) o e =
      ground (arith, is_uniq-add x.node.dynamic r.alias r.stamp)
  apply_op-IsOrdered debug x (output_file r) o e =
      ground (arith, is_uniq-add x.node.output_files r.alias r.stamp)
  apply_op-IsOrdered debug x (output_node a) o e =
      let (uniq, _, _) = append_uniq_lem x.node.output_nodes (a ∷ []) o.output_nodes_uniq in
      ground (arith, uniq)
  apply_op-IsOrdered debug x (timestamp t) o e = ground arith

  apply_op_returns : (x : Building B) (op : BuildOp) → apply_op false x op ≢ none
  unfolding apply_op add_dynamic add_output_file add_output_node
  apply_op_returns x (need r) = λ e. ground arith
  apply_op_returns x (output_file r) = λ e. ground arith
  apply_op_returns x (output_node a) = λ e. ground arith
  apply_op_returns x (timestamp t) = λ e. ground arith

  Keeps-trans : {x y z : Building B} → Keeps x y → Keeps y z → Keeps x z
  Keeps-trans p q = ground arith

  -- A property of states that every call keeps is kept by a run.
  apply_ops_inv {ℓ} :
      (P : Building B → Type ℓ) (debug : Bool)
      → ((x y : Building B) (op : BuildOp) → P x → apply_op debug x op ≡ some y → P y)
      → (x : Building B) (ops : List BuildOp) (y : Building B) → P x
      → apply_ops debug x ops ≡ some y
      → P y
  unfolding apply_ops
  apply_ops_inv P debug keep x [] y p e = subst P (some-injective _ _ e) p
  apply_ops_inv P debug keep x (op ∷ ops) y p e = elim (Option-cases (apply_op debug x op)) [
    | inl stopped ↦ absurd (ground arith)
    | inr (x', s) ↦ apply_ops_inv P debug keep x' ops y (keep x x' op p s) (rw (s, apply_ops) at e)
  ]

  pub apply_ops-Keeps :
      (debug : Bool) (x : Building B) (ops : List BuildOp) {y : Building B}
      → apply_ops debug x ops ≡ some y
      → Keeps x y
  apply_ops-Keeps debug x ops {y} =
      apply_ops_inv (Keeps x) debug (λ a b op k s. Keeps-trans k (apply_op-Keeps debug a op s)) x
        ops y (ground arith)

  pub apply_ops-IsOrdered :
      (debug : Bool) (x : Building B) (ops : List BuildOp) {y : Building B}
      → IsOrdered x.node
      → apply_ops debug x ops ≡ some y
      → IsOrdered y.node
  apply_ops-IsOrdered debug x ops {y} =
      apply_ops_inv (λ z. IsOrdered z.node) debug (λ a b op o s. apply_op-IsOrdered debug a op o s)
        x ops y

  -- In a release build no call of the body panics.
  pub apply_ops_returns :
      (debug : Bool) (x : Building B) (ops : List BuildOp)
      → debug ≡ false
      → (y : Building B) × (apply_ops debug x ops ≡ some y)
  unfolding apply_ops
  apply_ops_returns debug x [] d = (x, refl)
  apply_ops_returns debug x (op ∷ ops) d = elim (Option-cases (apply_op debug x op)) [
    | inl stopped ↦ absurd (apply_op_returns x op (rw d at stopped))
    | inr (x', s) ↦ rw (s, apply_ops) (apply_ops_returns debug x' ops d)
  ]

  opened-IsWellformed :
      (env : Environment B) (node : BuildNode B) → IsWellformed (opened env node).node
  unfolding opened
  opened-IsWellformed env node =
      make_dirty_node-IsWellformed
        (record node { stamp = no_stamp; buildable = (env.build node.buildable).buildable })

  apply_op-IsWellformed :
      (x y : Building B) (op : BuildOp)
      → IsWellformed x.node
      → apply_op true x op ≡ some y
      → IsWellformed y.node
  unfolding apply_op
  apply_op-IsWellformed x y (need r) w e =
      let (n, added, made) = map-eq-some _ _ _ e in
      subst (λ z. IsWellformed z.node) (sym made)
        (add_dynamic-IsWellformed x.node r.alias r.stamp w added)
  apply_op-IsWellformed x y (output_file r) w e =
      let (n, added, made) = map-eq-some _ _ _ e in
      subst (λ z. IsWellformed z.node) (sym made)
        (add_output_file-IsWellformed x.node r.alias r.stamp w added)
  apply_op-IsWellformed x y (output_node a) w e =
      let (n, added, made) = map-eq-some _ _ _ e in
      subst (λ z. IsWellformed z.node) (sym made) (add_output_node-IsWellformed x.node a w added)
  apply_op-IsWellformed x y (timestamp t) w e =
      subst (λ z. IsWellformed z.node) (some-injective _ _ e) w

  -- In a debug build, whatever the body asks for: if no assertion fails, no two kinds of dependency
  -- overlap afterwards, no dynamic or output list holds an alias twice, the stamps in them are valid,
  -- and none of them holds the node itself.
  pub apply_ops-IsWellformed :
      (env : Environment B) (node : BuildNode B) (ops : List BuildOp) {y : Building B}
      → apply_ops true (opened env node) ops ≡ some y
      → IsWellformed y.node
  apply_ops-IsWellformed env node ops {y} =
      apply_ops_inv (λ z. IsWellformed z.node) true (λ a b op w s. apply_op-IsWellformed a b op w s)
        (opened env node) ops y (opened-IsWellformed env node)

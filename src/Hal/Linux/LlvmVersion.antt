-- ===== src/Hal/Linux/LlvmVersion.antt =====
-- `LlvmVersion` of internal/hal/linux/Enums.go.
use ppb.Prelude.{
  ◌≡◌, refl, ◌↔◌, Option, some, List, [], ◌∷◌, Bytes, nat_comparable, list_comparable,
}
use ppb.Switch.{codes, first_case, first_case_iff, IsRead}

pub data LlvmVersion : Type 0 where
  llvm_any llvm_latest llvm_19 llvm_18 llvm_17 llvm_16 llvm_15 llvm_14 llvm_13 llvm_12 llvm_11
        llvm_10 llvm_9 llvm_5 llvm_4 :
      LlvmVersion

abbrev pub get_llvm_versions : List LlvmVersion
get_llvm_versions =
    llvm_19 ∷ llvm_18 ∷ llvm_17 ∷ llvm_16 ∷ llvm_15 ∷ llvm_14 ∷ llvm_13 ∷ llvm_12 ∷ llvm_11
    ∷ llvm_10 ∷ llvm_9 ∷ llvm_5 ∷ llvm_4 ∷ []

unfoldable pub string : LlvmVersion → Bytes
string llvm_any = codes "ANY"
string llvm_latest = codes "LATEST"
string llvm_19 = codes "19"
string llvm_18 = codes "18"
string llvm_17 = codes "17"
string llvm_16 = codes "16"
string llvm_15 = codes "15"
string llvm_14 = codes "14"
string llvm_13 = codes "13"
string llvm_12 = codes "12"
string llvm_11 = codes "11"
string llvm_10 = codes "10"
string llvm_9 = codes "9"
string llvm_5 = codes "5"
string llvm_4 = codes "4"

abbrev cases : List LlvmVersion
cases =
    llvm_any ∷ llvm_latest ∷ llvm_19 ∷ llvm_18 ∷ llvm_17 ∷ llvm_16 ∷ llvm_15 ∷ llvm_14 ∷ llvm_13
    ∷ llvm_12 ∷ llvm_11 ∷ llvm_10 ∷ llvm_9 ∷ llvm_5 ∷ llvm_4 ∷ []

-- The cases compare the input with the text of each constant.
unfoldable pub set : Bytes → Option LlvmVersion
unfolding first_case string
set in_ = first_case string in_ cases

found : (x : LlvmVersion) → first_case string (string x) cases ≡ some x
unfolding first_case string
found llvm_any = refl
found llvm_latest = refl
found llvm_19 = refl
found llvm_18 = refl
found llvm_17 = refl
found llvm_16 = refl
found llvm_15 = refl
found llvm_14 = refl
found llvm_13 = refl
found llvm_12 = refl
found llvm_11 = refl
found llvm_10 = refl
found llvm_9 = refl
found llvm_5 = refl
found llvm_4 = refl

pub set_iff : (in_ : Bytes) (x : LlvmVersion) → (set in_ ≡ some x) ↔ (in_ ≡ string x)
unfolding set
set_iff in_ x = first_case_iff string cases (found x) in_

pub reads : IsRead (λ s. s) string set
reads = record {
  set-string = λ x. (set_iff (string x) x).1 refl;
  set_iff = λ in_ x ascii. set_iff in_ x;
}

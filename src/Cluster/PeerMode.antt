-- ===== src/Cluster/PeerMode.antt =====
-- `PeerMode` of cluster/peer.go.
use ppb.Prelude.{
  ◌≡◌, refl, ◌↔◌, true, Option, some, List, [], ◌∷◌, map, Bytes, is_ascii, elem, nat_comparable,
  list_comparable,
}
use ppb.Switch.{codes, to_upper, first_case, first_case_iff, IsRead}

pub data PeerMode : Type 0 where
  peermode_disabled peermode_idle peermode_dedicated peermode_proportional : PeerMode

abbrev pub get_peer_modes : List PeerMode
get_peer_modes = peermode_disabled ∷ peermode_idle ∷ peermode_dedicated ∷ peermode_proportional ∷ []

unfoldable pub description : PeerMode → Bytes
description peermode_disabled = codes "worker won't accept any remote task"
description peermode_idle = codes "worker will accept remote task when idle"
description peermode_dedicated = codes "worker will always accept remote task"
description peermode_proportional =
    codes "worker will accept remote task until according to machine usage"

unfoldable pub string : PeerMode → Bytes
string peermode_disabled = codes "DISABLED"
string peermode_idle = codes "IDLE"
string peermode_dedicated = codes "DEDICATED"
string peermode_proportional = codes "PROPORTIONAL"

-- The cases compare the upper-case input with the text of each constant.
unfoldable pub set : Bytes → Option PeerMode
unfolding first_case string to_upper
set in_ = first_case string (to_upper in_) get_peer_modes

-- What is added, in order.
unfoldable pub auto_complete : List (Bytes × Bytes)
unfolding string description
auto_complete = map (λ it. (string it, description it)) get_peer_modes

found : (x : PeerMode) → first_case string (string x) get_peer_modes ≡ some x
unfolding first_case string
found peermode_disabled = refl
found peermode_idle = refl
found peermode_dedicated = refl
found peermode_proportional = refl

pub set_iff :
    (in_ : Bytes) (x : PeerMode)
    → is_ascii in_ ≡ true
    → (set in_ ≡ some x) ↔ (to_upper in_ ≡ string x)
unfolding set
set_iff in_ x ascii = first_case_iff string get_peer_modes (found x) (to_upper in_)

pub offered : (x : PeerMode) → elem (string x) (map (λ it. it.0) auto_complete) ≡ true
unfolding string auto_complete
offered peermode_disabled = refl
offered peermode_idle = refl
offered peermode_dedicated = refl
offered peermode_proportional = refl

upper : (x : PeerMode) → to_upper (string x) ≡ string x
unfolding to_upper string
upper peermode_disabled = refl
upper peermode_idle = refl
upper peermode_dedicated = refl
upper peermode_proportional = refl

ascii : (x : PeerMode) → is_ascii (string x) ≡ true
unfolding string
ascii peermode_disabled = refl
ascii peermode_idle = refl
ascii peermode_dedicated = refl
ascii peermode_proportional = refl

pub reads : IsRead to_upper string set
reads = record { set-string = λ x. (set_iff (string x) x (ascii x)).1 (upper x); set_iff = set_iff }

-- ===== src/Hal/Windows/MsvcVersion.antt =====
-- `MsvcVersion` of internal/hal/windows/Enums.go.
use ppb.Prelude.{
  ◌≡◌, refl, ◌↔◌, Option, some, List, [], ◌∷◌, Bytes, nat_comparable, list_comparable,
}
use ppb.Switch.{codes, first_case, first_case_iff, IsRead}

pub data MsvcVersion : Type 0 where
  msc_ver_any msc_ver_latest msc_ver_2022 msc_ver_2019 msc_ver_2017 msc_ver_2015 msc_ver_2013 :
      MsvcVersion

abbrev pub get_msvc_versions : List MsvcVersion
get_msvc_versions = msc_ver_2022 ∷ msc_ver_2019 ∷ msc_ver_2017 ∷ msc_ver_2015 ∷ msc_ver_2013 ∷ []

unfoldable pub string : MsvcVersion → Bytes
string msc_ver_any = codes "ANY"
string msc_ver_latest = codes "LATEST"
string msc_ver_2022 = codes "2022"
string msc_ver_2019 = codes "2019"
string msc_ver_2017 = codes "2017"
string msc_ver_2015 = codes "2015"
string msc_ver_2013 = codes "2013"

abbrev cases : List MsvcVersion
cases =
    msc_ver_any ∷ msc_ver_latest ∷ msc_ver_2022 ∷ msc_ver_2019 ∷ msc_ver_2017 ∷ msc_ver_2015
    ∷ msc_ver_2013 ∷ []

-- The cases compare the input with the text of each constant.
unfoldable pub set : Bytes → Option MsvcVersion
unfolding first_case string
set in_ = first_case string in_ cases

found : (x : MsvcVersion) → first_case string (string x) cases ≡ some x
unfolding first_case string
found msc_ver_any = refl
found msc_ver_latest = refl
found msc_ver_2022 = refl
found msc_ver_2019 = refl
found msc_ver_2017 = refl
found msc_ver_2015 = refl
found msc_ver_2013 = refl

pub set_iff : (in_ : Bytes) (x : MsvcVersion) → (set in_ ≡ some x) ↔ (in_ ≡ string x)
unfolding set
set_iff in_ x = first_case_iff string cases (found x) in_

pub reads : IsRead (λ s. s) string set
reads = record {
  set-string = λ x. (set_iff (string x) x).1 refl;
  set_iff = λ in_ x ascii. set_iff in_ x;
}

-- ===== src/Utils/ProfilingMode.antt =====
-- `ProfilingMode` of utils/Profiling_Enabled.go.
use ppb.Prelude.{
  ◌≡◌, refl, ◌↔◌, true, Option, some, List, [], ◌∷◌, map, Bytes, is_ascii, elem, nat_comparable,
  list_comparable,
}
use ppb.Switch.{codes, to_upper, first_case, first_case_iff, IsRead}

pub data ProfilingMode : Type 0 where
  profiling_block profiling_cpu profiling_goroutine profiling_memory profiling_memoryalloc
        profiling_memoryheap profiling_mutex profiling_threadcreation profiling_trace :
      ProfilingMode

abbrev pub get_profiling_modes : List ProfilingMode
get_profiling_modes =
    profiling_block ∷ profiling_cpu ∷ profiling_goroutine ∷ profiling_memory ∷ profiling_memoryalloc
    ∷ profiling_memoryheap ∷ profiling_mutex ∷ profiling_threadcreation ∷ profiling_trace ∷ []

unfoldable pub description : ProfilingMode → Bytes
description profiling_block = codes "enables block (contention) profiling"
description profiling_cpu = codes "enables cpu profiling"
description profiling_goroutine = codes "enables goroutine profiling"
description profiling_memory = codes "enables memory profiling"
description profiling_memoryalloc = codes "enables memory allocs profiling"
description profiling_memoryheap = codes "enables heap memory allocation profiling"
description profiling_mutex = codes "enables mutex profiling"
description profiling_threadcreation = codes "enables thread creation profiling"
description profiling_trace = codes "enables execution tracing"

unfoldable pub string : ProfilingMode → Bytes
string profiling_block = codes "BLOCK"
string profiling_cpu = codes "CPU"
string profiling_goroutine = codes "GOROUTINE"
string profiling_memory = codes "MEM"
string profiling_memoryalloc = codes "MEMALLOC"
string profiling_memoryheap = codes "MEMHEAP"
string profiling_mutex = codes "MUTEX"
string profiling_threadcreation = codes "THREADCREATION"
string profiling_trace = codes "TRACE"

-- The cases compare the upper-case input with the text of each constant.
unfoldable pub set : Bytes → Option ProfilingMode
unfolding first_case string to_upper
set in_ = first_case string (to_upper in_) get_profiling_modes

-- What is added, in order.
unfoldable pub auto_complete : List (Bytes × Bytes)
unfolding string description
auto_complete = map (λ it. (string it, description it)) get_profiling_modes

found : (x : ProfilingMode) → first_case string (string x) get_profiling_modes ≡ some x
unfolding first_case string
found profiling_block = refl
found profiling_cpu = refl
found profiling_goroutine = refl
found profiling_memory = refl
found profiling_memoryalloc = refl
found profiling_memoryheap = refl
found profiling_mutex = refl
found profiling_threadcreation = refl
found profiling_trace = refl

pub set_iff :
    (in_ : Bytes) (x : ProfilingMode)
    → is_ascii in_ ≡ true
    → (set in_ ≡ some x) ↔ (to_upper in_ ≡ string x)
unfolding set
set_iff in_ x ascii = first_case_iff string get_profiling_modes (found x) (to_upper in_)

pub offered : (x : ProfilingMode) → elem (string x) (map (λ it. it.0) auto_complete) ≡ true
unfolding string auto_complete
offered profiling_block = refl
offered profiling_cpu = refl
offered profiling_goroutine = refl
offered profiling_memory = refl
offered profiling_memoryalloc = refl
offered profiling_memoryheap = refl
offered profiling_mutex = refl
offered profiling_threadcreation = refl
offered profiling_trace = refl

upper : (x : ProfilingMode) → to_upper (string x) ≡ string x
unfolding to_upper string
upper profiling_block = refl
upper profiling_cpu = refl
upper profiling_goroutine = refl
upper profiling_memory = refl
upper profiling_memoryalloc = refl
upper profiling_memoryheap = refl
upper profiling_mutex = refl
upper profiling_threadcreation = refl
upper profiling_trace = refl

ascii : (x : ProfilingMode) → is_ascii (string x) ≡ true
unfolding string
ascii profiling_block = refl
ascii profiling_cpu = refl
ascii profiling_goroutine = refl
ascii profiling_memory = refl
ascii profiling_memoryalloc = refl
ascii profiling_memoryheap = refl
ascii profiling_mutex = refl
ascii profiling_threadcreation = refl
ascii profiling_trace = refl

pub reads : IsRead to_upper string set
reads = record { set-string = λ x. (set_iff (string x) x (ascii x)).1 (upper x); set_iff = set_iff }

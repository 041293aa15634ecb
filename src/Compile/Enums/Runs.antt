-- ===== src/Compile/Enums/Runs.antt =====
-- Runs of the enumerations of compile/Enums.go.
use ppb.Prelude.{◌≡◌, refl, some, none}
use ppb.Switch.{codes}
use ppb.Compile.Enums.ArchType
use ppb.Compile.Enums.ArchType.{arch_x86, arch_x64, arch_arm}
use ppb.Compile.Enums.WarningLevel
use ppb.Compile.Enums.WarningLevel.{warning_warn}

arm_run : ArchType.set (codes "arm") ≡ some arch_arm
unfolding ArchType.set
arm_run = refl

x64_run : ArchType.set (codes "x64") ≡ none
unfolding ArchType.set
x64_run = refl

warn_run : WarningLevel.set (codes "Warn") ≡ some warning_warn
unfolding WarningLevel.set
warn_run = refl

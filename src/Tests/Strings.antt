-- ===== src/Tests/Strings.antt =====
-- Paths as `resolve_path` of kernel/src/syscall.rs sees them: the directory `/bin`, the relative
-- path `../a` and others.
use ferrum_os.Prelude.{◌≡◌, refl, [], ◌∷◌, ◌++◌}
use ferrum_os.Paths.{Str, slash, join, resolve_path}
use ferrum_os.Paths.Normal.{all, no_slash, IsNormal}
use ferrum_os.Paths.Nested.{resolve_path-nested}

-- `bin`, `/bin`, `../a` and `b`
abbrev bin : Str
bin = 98 ∷ 105 ∷ 110 ∷ []

abbrev bin_path : Str
bin_path = slash ∷ bin

abbrev up_a : Str
up_a = 46 ∷ 46 ∷ slash ∷ 97 ∷ []

abbrev b_name : Str
b_name = 98 ∷ []

bin_path-IsNormal : IsNormal bin_path
unfolding all no_slash join
bin_path-IsNormal = record { components = bin ∷ []; spelled = refl; plain = refl }

resolve_path-nested_example :
    resolve_path (resolve_path bin_path up_a) b_name
    ≡ resolve_path bin_path (up_a ++ slash ∷ b_name)
resolve_path-nested_example =
    resolve_path-nested bin_path up_a b_name bin_path-IsNormal (λ e. cc) refl

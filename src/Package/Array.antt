-- ===== src/Package/Array.antt =====
-- src/package.c: `apk_deps_add` and `apk_deps_del`, which keep one dependency for each name.
pub mod Laws
use apk_tools.Prelude.{List, ◌∷◌, Bytes, if◌then◌else◌, [], not}
use apk_tools.Package.{Dependency, same_name, List, Bytes}

-- The first dependency of that name is overwritten; with none, the new one goes to the end.
pub apk_deps_add : List Dependency → Dependency → List Dependency
apk_deps_add [] dep = dep ∷ []
apk_deps_add (d0 ∷ deps) dep =
    if not (same_name d0.name dep.name) then d0 ∷ apk_deps_add deps dep else dep ∷ deps

-- The last element, of a list that is not empty.
pub last_or : Dependency → List Dependency → Dependency
last_or d [] = d
last_or d (e ∷ deps) = last_or e deps

-- `apk_array_truncate` to one element fewer, on the elements behind the first.
pub all_but_last : Dependency → List Dependency → List Dependency
all_but_last d [] = []
all_but_last d (e ∷ deps) = d ∷ all_but_last e deps

-- `*d0 = deps->item[nlen]` and the truncation, from `d0` on.
replace_by_last : Dependency → List Dependency → List Dependency
unfolding last_or all_but_last
replace_by_last d0 [] = []
replace_by_last d0 (e ∷ deps) = last_or e deps ∷ all_but_last e deps

-- The first dependency of that name is overwritten by the last one, which is cut off.
pub apk_deps_del : List Dependency → Bytes → List Dependency
unfolding replace_by_last
apk_deps_del [] name = []
apk_deps_del (d0 ∷ deps) name =
    if not (same_name d0.name name) then d0 ∷ apk_deps_del deps name else replace_by_last d0 deps

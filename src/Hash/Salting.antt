-- ===== src/Hash/Salting.antt =====
-- The salting formats of hash_comparator.go: Go's generic `strings.Replacer` for two words.
pub mod Pieces
use go_svc_extn.Prelude.{ℕ, zero, suc, [], ◌∷◌, ◌++◌, Bytes, codes, if◌then◌else◌}
use go_svc_extn.Strings.{has_prefix}

-- `{SALT}` and `{PASSWORD}` are replaced from left to right. The first argument counts the bytes of a
-- replaced word that are still to be passed over.
pub replace_from : ℕ → Bytes → Bytes → Bytes → Bytes
replace_from n salt password [] = []
replace_from (suc n) salt password (c ∷ s) = replace_from n salt password s
replace_from zero salt password (c ∷ s) =
    let salted = replace_from 5 salt password s in
    let named = replace_from 9 salt password s in
    let kept = replace_from zero salt password s in
    if has_prefix (c ∷ s) (codes "{SALT}")
    then salt ++ salted
    else if has_prefix (c ∷ s) (codes "{PASSWORD}")
    then password ++ named
    else c ∷ kept

-- `NewReplacer("{SALT}", salt, "{PASSWORD}", password).Replace(pf)`
unfoldable pub fill : Bytes → Bytes → Bytes → Bytes
unfolding replace_from
fill salt password pf = replace_from 0 salt password pf

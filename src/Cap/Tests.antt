-- ===== src/Cap/Tests.antt =====
-- The capability table on concrete tables.
use pindos.Base.{◌≡◌, refl, Bool, true, false, ◌&&◌, none, some, [], ◌∷◌, not, ◌||◌, arith}
use pindos.Cap.{
  Bitflags, Right, Capability, CapKind, CapTable, get, insert, revoke, check_rights, attenuate,
}
use pindos.Cap.Table.{inserted, written, perform_all, get_revoked, get-revoke_other}
use pindos.Cap.Rights.{check_rights-attenuate}

-- Sets with `READ` or without it.
abbrev is_set : Bool → Right → Bool
is_set b Right.read = b
is_set b _ = false

abbrev contains : Bool → Bool → Bool
contains a b = not b || a

is_set-both : (a b : Bool) (r : Right) → is_set (a && b) r ≡ (is_set a r && is_set b r)
is_set-both a b Right.read = refl
is_set-both a b Right.write = refl
is_set-both a b Right.exec = refl
is_set-both a b Right.grant = refl

contains_forth :
    (a b : Bool) → contains a b ≡ true → (r : Right) → is_set b r ≡ true → is_set a r ≡ true
contains_forth true b h Right.read s = refl
contains_forth false true h Right.read s = h
contains_forth false false h Right.read s = s
contains_forth a b h Right.write s = s
contains_forth a b h Right.exec s = s
contains_forth a b h Right.grant s = s

contains_back :
    (a b : Bool) → ((r : Right) → is_set b r ≡ true → is_set a r ≡ true) → contains a b ≡ true
contains_back a false f = refl
contains_back a true f = f Right.read refl

abbrev read_only : Bitflags
read_only = record {
  Flags = Bool;
  is_set = is_set;
  intersection = λ a b. a && b;
  contains = contains;
  is_set-intersection = is_set-both;
  contains_iff = λ a b. (contains_forth a b, contains_back a b);
}

abbrev memory_cap : Capability Bool
memory_cap = record { kind = CapKind.memory; rights = true; object_id = 7 }

abbrev table : CapTable Bool
table = record { entries = some memory_cap ∷ none ∷ [] }

check_rights-attenuate_example :
    check_rights read_only
      (insert table (attenuate read_only memory_cap false)).0
      (insert table (attenuate read_only memory_cap false)).1
      true
    ≡ (contains true true && contains false true)
check_rights-attenuate_example =
    check_rights-attenuate read_only table memory_cap false true (omega arith)

get_revoked_example :
    get (perform_all (inserted memory_cap ∷ written 0 memory_cap ∷ []) (revoke table 0)) 0 ≡ none
get_revoked_example =
    get_revoked table 0 (inserted memory_cap ∷ written 0 memory_cap ∷ []) (omega arith)

get-revoke_other_example : get (revoke table 1) 0 ≡ get table 0
get-revoke_other_example = get-revoke_other table 0 1 (λ e. absurd (omega (arith, e)))

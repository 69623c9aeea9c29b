-- ===== src/Regex.antt =====
-- lib/re.py: regular expressions with metadata, their smart constructors, and their derivatives.
pub mod Language
pub mod Lists
pub mod Smart
pub mod Deriv
pub mod Consumed
use pyretic.Base.{
  ℕ, ◌+◌, ◌==◌, leb, Bool, true, false, ◌&&◌, ◌||◌, not, Option, none, some, List, [], ◌∷◌, ◌++◌,
  if◌then◌else◌,
}

-- The metadata objects, by their identity.
abbrev pub Metadata : Type 0
Metadata = List ℕ

mutual
  pub data Re : Type 0 where
    empty epsilon : Metadata → Re
    symbol : (char : ℕ) → Metadata → Re
    concat : (re1 re2 : Re) → Re
    star negate : Re → Re
    alter inters : Res → Re

  pub data Res : Type 0 where
    nil : Res
    cons : Re → Res → Res

unfoldable pub append : Res → Res → Res
append nil ss = ss
append (cons r rs) ss = cons r (append rs ss)

-- __eq__, which ignores metadata
unfoldable mutual
  pub re_eq : Re → Re → Bool
  re_eq (empty m) (empty n) = true
  re_eq (epsilon m) (epsilon n) = true
  re_eq (symbol c m) (symbol d n) = c == d
  re_eq (concat r1 r2) (concat s1 s2) = re_eq r1 s1 && re_eq r2 s2
  re_eq (star r) (star s) = re_eq r s
  re_eq (negate r) (negate s) = re_eq r s
  re_eq (alter rs) (alter ss) = res_eq rs ss
  re_eq (inters rs) (inters ss) = res_eq rs ss
  re_eq _ _ = false

  pub res_eq : Res → Res → Bool
  res_eq nil nil = true
  res_eq (cons r rs) (cons s ss) = re_eq r s && res_eq rs ss
  res_eq _ _ = false

-- sort_key, whose values from -7 for a negation to -1 for the empty set, and then the characters,
-- are moved up by 7
unfoldable pub sort_key : Re → ℕ
sort_key (negate r) = 0
sort_key (inters rs) = 1
sort_key (star r) = 2
sort_key (alter rs) = 3
sort_key (concat r s) = 4
sort_key (epsilon m) = 5
sort_key (empty m) = 6
sort_key (symbol c m) = 7 + c

unfoldable pub sort_insert : Re → Res → Res
sort_insert r nil = cons r nil
sort_insert r (cons s rs) =
    let rest = sort_insert r rs in
    if leb (sort_key r) (sort_key s) then cons r (cons s rs) else cons s rest

-- sorted is stable.
unfoldable pub re_sort : Res → Res
unfolding sort_insert
re_sort nil = nil
re_sort (cons r rs) = sort_insert r (re_sort rs)

-- It is called on expressions of one type only, so its assertions hold.
unfoldable pub aggregate_metadata : Re → Re → Re
aggregate_metadata (symbol c m) (symbol d n) = symbol c (m ++ n)
aggregate_metadata (epsilon m) (epsilon n) = epsilon (m ++ n)
aggregate_metadata (empty m) (empty n) = empty (m ++ n)
aggregate_metadata r s = r

-- The loop of re_nub, once there is a prev_re.
unfoldable pub nub_after : Re → Res → Res
unfolding re_eq aggregate_metadata
nub_after prev nil = nil
nub_after prev (cons r rs) =
    let same = nub_after (aggregate_metadata prev r) rs in
    let new = nub_after r rs in if re_eq r prev then same else cons r new

unfoldable pub re_nub : Res → Res
unfolding nub_after
re_nub nil = nil
re_nub (cons r rs) = cons r (nub_after r rs)

unfoldable pub smart_star : Re → Re
smart_star (star r) = smart_star r
smart_star (epsilon m) = epsilon []
smart_star (empty m) = epsilon []
smart_star r = star r

unfoldable pub smart_negate : Re → Re
smart_negate (negate r) = r
smart_negate r = negate r

-- `elif h: return h`
abbrev pub or_helper : Option Re → Re → Re
or_helper none r = r
or_helper (some h) r = h

-- r_empty_helper of smart_inters
abbrev pub inters_helper : Re → Re → Option Re
inters_helper (empty m) s = some (empty [])
inters_helper (negate (empty m)) s = some s
inters_helper r s = none

abbrev pub inters_items : Re → Res
inters_items (inters rs) = rs
inters_items r = cons r nil

-- For two intersections, whose lists are joined before the helpers are asked, both helpers give
-- None.
unfoldable pub smart_inters : Re → Re → Re
unfolding re_eq append re_nub re_sort
smart_inters r s =
    if re_eq r s
    then aggregate_metadata r s
    else or_helper (inters_helper r s) (
        or_helper (inters_helper s r)
          (inters (re_nub (re_sort (append (inters_items r) (inters_items s))))))

-- r_empty_helper of smart_alter
abbrev pub alter_helper : Re → Re → Option Re
alter_helper (empty m) s = some s
alter_helper (negate (empty m)) s = some (negate (empty []))
alter_helper r s = none

abbrev pub alter_items : Re → Res
alter_items (alter rs) = rs
alter_items r = cons r nil

unfoldable pub smart_alter : Re → Re → Re
unfolding re_eq append re_nub re_sort
smart_alter r s =
    if re_eq r s
    then aggregate_metadata r s
    else or_helper (alter_helper r s) (
        or_helper (alter_helper s r)
          (alter (re_nub (re_sort (append (alter_items r) (alter_items s))))))

-- smart_concat for an `r` that is no concatenation
abbrev pub join_concat : Re → Re → Re
join_concat (empty m) s = empty []
join_concat r (empty m) = empty []
join_concat (epsilon m) s = s
join_concat r (epsilon m) = r
join_concat r s = concat r s

unfoldable pub smart_concat : Re → Re → Re
smart_concat (concat r1 r2) s = smart_concat r1 (smart_concat r2 s)
smart_concat r s = join_concat r s

-- Does nullable give epsilon?
unfoldable mutual
  pub is_nullable : Re → Bool
  is_nullable (empty m) = false
  is_nullable (epsilon m) = true
  is_nullable (symbol c m) = false
  is_nullable (concat r s) = is_nullable r && is_nullable s
  is_nullable (star r) = true
  is_nullable (negate r) = not (is_nullable r)
  is_nullable (alter rs) = any_nullable rs
  is_nullable (inters rs) = all_nullable rs

  pub any_nullable : Res → Bool
  any_nullable nil = false
  any_nullable (cons r rs) = is_nullable r || any_nullable rs

  pub all_nullable : Res → Bool
  all_nullable nil = true
  all_nullable (cons r rs) = is_nullable r && all_nullable rs

abbrev pub bool_to_re : Bool → Re
bool_to_re true = epsilon []
bool_to_re false = empty []

unfoldable pub nullable : Re → Re
unfolding is_nullable
nullable r = bool_to_re (is_nullable r)

-- The derivative with respect to a character.
unfoldable mutual
  pub deriv : Re → ℕ → Re
  deriv (empty m) a = empty []
  deriv (epsilon m) a = empty []
  deriv (symbol c m) a = if c == a then epsilon [] else empty []
  deriv (star r) a = smart_concat (deriv r a) (smart_star r)
  deriv (negate r) a = smart_negate (deriv r a)
  deriv (concat r s) a =
      smart_alter (smart_concat (deriv r a) s) (smart_concat (nullable r) (deriv s a))
  deriv (alter rs) a = alter_deriv (empty []) rs a
  deriv (inters rs) a = inters_deriv (negate (empty [])) rs a

  pub alter_deriv : Re → Res → ℕ → Re
  alter_deriv acc nil a = acc
  alter_deriv acc (cons s rs) a = alter_deriv (smart_alter acc (deriv s a)) rs a

  pub inters_deriv : Re → Res → ℕ → Re
  inters_deriv acc nil a = acc
  inters_deriv acc (cons s rs) a = inters_deriv (smart_inters acc (deriv s a)) rs a

unfoldable pub match_string : Re → List ℕ → Bool
unfolding deriv nullable
match_string r [] = is_nullable r
match_string r (a ∷ w) = match_string (deriv r a) w

unfoldable pub deriv_string : Re → List ℕ → Re
unfolding deriv
deriv_string r [] = r
deriv_string r (a ∷ w) = deriv_string (deriv r a) w

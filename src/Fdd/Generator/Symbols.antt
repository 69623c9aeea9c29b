-- ===== src/Fdd/Generator/Symbols.antt =====
-- lib/path.py, fdd_re_tree_gen.__new_symbol__: a symbol that is larger than all before and not in use
-- elsewhere, as long as there is room.
use pyretic.Base.{
  ℕ, zero, suc, ◌+◌, ◌*◌, ◌<◌, ◌≤◌, ◌==◌, ==_iff, leb, true, false, Option, some, List, [], ◌∷◌,
  ◌≡◌, refl, arith, inl, inr, bind, if◌then◌else◌, has, Bool-cases,
}
use pyretic.Fdd.Generator.{token_end, new_token, next_token, new_symbol}

-- How many of the symbols are not below the token.
abbrev pub above : ℕ → List ℕ → ℕ
above token [] = 0
above token (s ∷ ss) = if leb token s then suc (above token ss) else above token ss

above_later : (t u : ℕ) (ss : List ℕ) → t ≤ u → above u ss ≤ above t ss
above_later t u [] h = omega arith
above_later t u (s ∷ ss) h = ground (arith, above_later t u ss h)

above_used : (t : ℕ) (ss : List ℕ) → has t ss ≡ true → suc (above (t + 2) ss) ≤ above t ss
above_used t [] h = absurd (ground arith)
above_used t (s ∷ ss) h = elim (Bool-cases (t == s)) [
  | inl e ↦ ground (arith, above_later t (t + 2) ss (omega arith), (==_iff t s).0 e)
  | inr e ↦ ground (arith, above_used t ss (rw e at h))
]

-- The tokens that are left are enough for `k` more symbols, whatever others use.
abbrev pub Room : ℕ → ℕ → List ℕ → Type 0
Room token k syms = token + 2 * above token syms + 2 * k ≤ token_end

-- What the symbol owes to the token that it starts from.
pub record Fresh (syms : List ℕ) (token k : ℕ) (result : Option ℕ) : Type 0 where
  pub new : ℕ
  pub is_result : result ≡ some new
  pub larger : token ≤ new
  pub unused : has new syms ≡ false
  pub room : Room new k syms

new_token-some : (t : ℕ) → t + 2 ≤ token_end → new_token t ≡ some (t + 2)
unfolding new_token
new_token-some t h = ground arith

next_token-Fresh :
    (n : ℕ) (syms : List ℕ) (t k : ℕ)
    → Room t k syms
    → token_end < t + n
    → Fresh syms t k (next_token n syms t)
unfolding next_token
next_token-Fresh zero syms t k room fuel = absurd (omega arith)
next_token-Fresh (suc n) syms t k room fuel = elim (Bool-cases (has t syms)) [
  | inl e ↦
      let used = above_used t syms e in
      let f = next_token-Fresh n syms (t + 2) k (omega arith) (omega arith) in
      let further = f.larger in
      record {
        new = f.new;
        is_result = rw (e, next_token) (rw (new_token-some t (omega arith)) f.is_result);
        larger = omega arith;
        unused = f.unused;
        room = f.room;
      }
  | inr e ↦ record {
    new = t;
    is_result = rw (e, next_token) refl;
    larger = omega arith;
    unused = e;
    room = room;
  }
]

first_token-Fresh :
    (n : ℕ) (syms : List ℕ) (t k : ℕ)
    → Room t (suc k) syms
    → token_end < n
    → Fresh syms (suc t) k (bind (new_token t) (next_token n syms))
first_token-Fresh n syms t k room fuel =
    let fewer = above_later t (t + 2) syms (omega arith) in
    let f = next_token-Fresh n syms (t + 2) k (omega arith) (omega arith) in
    let further = f.larger in
    record {
      new = f.new;
      is_result = rw (new_token-some t (omega arith)) f.is_result;
      larger = omega arith;
      unused = f.unused;
      room = f.room;
    }

-- With room for one more symbol, __new_symbol__ ends without an exception.
pub new_symbol-Fresh :
    (syms : List ℕ) (t k : ℕ) → Room t (suc k) syms → Fresh syms (suc t) k (new_symbol syms t)
unfolding new_symbol
new_symbol-Fresh syms t k room = first_token-Fresh (suc token_end) syms t k room (omega arith)

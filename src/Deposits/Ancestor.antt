-- ===== src/Deposits/Ancestor.antt =====
-- `find_common_ancestor` of crates/deposits/src/reorg.rs.
use mathlib.Core.List.{Memᴰ}
use chain_rail.Base.{
  text_eq_refl, ap, ℕ, ◌≤◌, ◌<◌, ◌≡◌, refl, Bool, true, false, List, [], ◌∷◌, Option, none, some,
  Text, text_eq, ◌==◌, if◌then◌else◌, All, Bool-cases, inl, inr, arith, eq_of_text_eq,
}

-- A map that is collected from pairs: of two with one key the later stands.
abbrev pub get : ℕ → List (ℕ × Text) → Option Text
get h [] = none
get h ((k, x) ∷ pairs) =
    let later = get h pairs in
    elim later [ some y ↦ some y | none ↦ if k == h then some x else none ]

abbrev pub agrees : Text → Option Text → Bool
agrees x none = false
agrees x (some y) = text_eq y x

pub find_common_ancestor : List (ℕ × Text) → List (ℕ × Text) → Option ℕ
find_common_ancestor [] chain = none
find_common_ancestor ((h, x) ∷ stored) chain =
    if agrees x (get h chain) then some h else find_common_ancestor stored chain

-- A stored block with which the chain agrees.
abbrev pub Agreed : List (ℕ × Text) → ℕ × Text → Type 0
Agreed chain b = get b.0 chain ≡ some b.1

agrees-eq : (x : Text) (o : Option Text) → agrees x o ≡ true → o ≡ some x
agrees-eq x none h = cc
agrees-eq x (some y) h = let same : y ≡ x = eq_of_text_eq y x h in rw same refl

-- The heights of a lineage fall.
abbrev pub Descending : List (ℕ × Text) → Type 0
Descending [] = Unit
Descending (b ∷ bs) = All (λ (c : ℕ × Text). c.0 < b.0) bs × Descending bs

-- An ancestor that is found, at a height not below `k`.
pub record IsForkPoint (k : ℕ) (stored chain : List (ℕ × Text)) : Type 0 where
  pub height : ℕ
  pub hash : Text
  pub found : find_common_ancestor stored chain ≡ some height
  pub was_stored : Memᴰ (height, hash) stored
  pub agreed : Agreed chain (height, hash)
  pub not_below : k ≤ height

below_first :
    (b : ℕ × Text) (h : ℕ) (bs : List (ℕ × Text))
    → All (λ (c : ℕ × Text). c.0 < h) bs
    → Memᴰ b bs
    → b.0 ≤ h
below_first b h [] a m = elim m [ ]
below_first b h (c ∷ bs) a (Memᴰ.head e) =
    let lt : c.0 < h = a.0 in let same : b.0 ≡ c.0 = ap (λ (q : ℕ × Text). q.0) e in omega arith
below_first b h (c ∷ bs) a (Memᴰ.tail m) = below_first b h bs a.1 m

not_agreed : (x : Text) (o : Option Text) → agrees x o ≡ false → o ≡ some x → ⊥
not_agreed x o n e = cc (rw (e, text_eq_refl x) at n)

not_above :
    (k h : ℕ) (x y : Text) (stored : List (ℕ × Text))
    → Descending ((h, x) ∷ stored)
    → Memᴰ (k, y) ((h, x) ∷ stored)
    → k ≤ h
not_above k h x y stored d (Memᴰ.head e) =
    let same : k ≡ h = ap (λ (q : ℕ × Text). q.0) e in omega arith
not_above k h x y stored d (Memᴰ.tail m) = below_first (k, y) h stored d.0 m

in_rest :
    (k h : ℕ) (x y : Text) (stored chain : List (ℕ × Text))
    → agrees x (get h chain) ≡ false
    → Agreed chain (k, y)
    → Memᴰ (k, y) ((h, x) ∷ stored)
    → Memᴰ (k, y) stored
in_rest k h x y stored chain n g (Memᴰ.head e) =
    let same : k ≡ h = ap (λ (q : ℕ × Text). q.0) e in
    let hash : y ≡ x = ap (λ (q : ℕ × Text). q.1) e in
    absurd (not_agreed x (get h chain) n (rw (same, hash) at g))
in_rest k h x y stored chain n g (Memᴰ.tail m) = m

-- Where a stored block and the chain agree, and the stored heights fall, an ancestor is found: a
-- stored block with which the chain agrees, and no lower than that block.
pub find_common_ancestor_highest :
    (stored chain : List (ℕ × Text)) (k : ℕ) (y : Text)
    → Descending stored
    → Memᴰ (k, y) stored
    → Agreed chain (k, y)
    → IsForkPoint k stored chain
unfolding find_common_ancestor
find_common_ancestor_highest [] chain k y d m g = elim m [ ]
find_common_ancestor_highest ((h, x) ∷ stored) chain k y d m g =
    elim (Bool-cases (agrees x (get h chain))) [
      | inl p ↦ record {
        height = h;
        hash = x;
        found = rw (find_common_ancestor, p) refl;
        was_stored = Memᴰ.head refl;
        agreed = agrees-eq x (get h chain) p;
        not_below = not_above k h x y stored d m;
      }
      | inr p ↦
          let r =
            find_common_ancestor_highest stored chain k y d.1 (in_rest k h x y stored chain p g m)
              g in
          record {
            height = r.height;
            hash = r.hash;
            found = rw (find_common_ancestor, p) r.found;
            was_stored = Memᴰ.tail r.was_stored;
            agreed = r.agreed;
            not_below = r.not_below;
          }
    ]

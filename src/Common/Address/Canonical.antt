-- ===== src/Common/Address/Canonical.antt =====
-- The canonical form of an address (crates/common/src/chain.rs).
use chain_rail.Base.{
  ℕ, ◌+◌, ◌≡◌, ◌∙◌, refl, sym, ap, Bool, true, false, ◌&&◌, not, List, [], ◌∷◌, ◌++◌, Text, codes,
  text_eq, text_eq_refl, ◌==◌, all, any, is_upper, is_lower, is_hexdigit, ascii_lower,
  to_ascii_lowercase, len_utf8, byte_len, strip_prefix, ==_iff, Bool-cases, Option-cases, inl, inr,
  arith,
}
use chain_rail.Common.Result.{ok}
use chain_rail.Common.Money.Parse.{trim, trim_start, trim_end, is_whitespace, keep}
use chain_rail.Common.Address.{
  ChainKind, Address, cased, nibble_at, checksum_from, storage_key, checksum_body, parse_body,
  parse_evm, parse,
}

abbrev pub zero_digit : ℕ → Bool
zero_digit c = c == b'0'

-- One character of a checksum.
lower_cased :
    (n c : ℕ) → is_hexdigit c ≡ true → ascii_lower (cased n (ascii_lower c)) ≡ ascii_lower c
lower_cased n c h = ground arith

cased-hexdigit : (n c : ℕ) → is_hexdigit c ≡ true → is_hexdigit (cased n (ascii_lower c)) ≡ true
cased-hexdigit n c h = ground arith

cased-zero : (n c : ℕ) → is_hexdigit c ≡ true → zero_digit (cased n (ascii_lower c)) ≡ zero_digit c
cased-zero n c h = ground arith

hexdigit-solid : (c : ℕ) → is_hexdigit c ≡ true → is_whitespace c ≡ false
unfolding is_whitespace
hexdigit-solid c h = ground arith

split_and : (a b : Bool) → (a && b) ≡ true → (a ≡ true) × (b ≡ true)
split_and a b h = ground arith

and_false : (a : Bool) → (a && false) ≡ false
and_false a = ground arith

-- The whole text.
module _ (hash : List ℕ) where
  lower-checksum :
      (i : ℕ) (s : Text)
      → all is_hexdigit s ≡ true
      → to_ascii_lowercase (checksum_from hash i (to_ascii_lowercase s)) ≡ to_ascii_lowercase s
  unfolding checksum_from
  lower-checksum i [] h = refl
  lower-checksum i (c ∷ s) h =
      let (a, b) = split_and (is_hexdigit c) (all is_hexdigit s) h in
      rw (lower_cased (nibble_at hash i) c a, lower-checksum (i + 1) s b) refl

  hexdigit-checksum :
      (i : ℕ) (s : Text)
      → all is_hexdigit s ≡ true
      → all is_hexdigit (checksum_from hash i (to_ascii_lowercase s)) ≡ true
  unfolding checksum_from
  hexdigit-checksum i [] h = refl
  hexdigit-checksum i (c ∷ s) h =
      let (a, b) = split_and (is_hexdigit c) (all is_hexdigit s) h in
      rw (cased-hexdigit (nibble_at hash i) c a, hexdigit-checksum (i + 1) s b) refl

  zeros-checksum :
      (i : ℕ) (s : Text)
      → all is_hexdigit s ≡ true
      → all zero_digit (checksum_from hash i (to_ascii_lowercase s)) ≡ all zero_digit s
  unfolding checksum_from
  zeros-checksum i [] h = refl
  zeros-checksum i (c ∷ s) h =
      let (a, b) = split_and (is_hexdigit c) (all is_hexdigit s) h in
      rw (cased-zero (nibble_at hash i) c a, zeros-checksum (i + 1) s b) refl

cased-len :
    (n c : ℕ) → is_hexdigit c ≡ true → (len_utf8 (cased n (ascii_lower c)) ≡ 1) × (len_utf8 c ≡ 1)
cased-len n c h = (ground arith, ground arith)

byte_len-checksum :
    (hash : List ℕ) (i : ℕ) (s : Text)
    → all is_hexdigit s ≡ true
    → byte_len (checksum_from hash i (to_ascii_lowercase s)) ≡ byte_len s
unfolding checksum_from
byte_len-checksum hash i [] h = refl
byte_len-checksum hash i (c ∷ s) h =
    let (a, b) = split_and (is_hexdigit c) (all is_hexdigit s) h in
    let (p, q) = cased-len (nibble_at hash i) c a in
    rw (p, q, byte_len-checksum hash (i + 1) s b) refl

-- A text of hexadecimal digits is not trimmed.
keep-solid : (c : ℕ) (s : Text) → is_whitespace c ≡ false → keep c s ≡ c ∷ s
unfolding keep
keep-solid c [] h = rw h refl
keep-solid c (d ∷ s) h = refl

trim_end-hexdigit : (s : Text) → all is_hexdigit s ≡ true → trim_end s ≡ s
unfolding trim_end
trim_end-hexdigit [] h = refl
trim_end-hexdigit (c ∷ s) h =
    let (a, b) = split_and (is_hexdigit c) (all is_hexdigit s) h in
    ap (keep c) (trim_end-hexdigit s b) ∙ keep-solid c s (hexdigit-solid c a)

trim-prefixed : (s : Text) → all is_hexdigit s ≡ true → trim (codes "0x" ++ s) ≡ codes "0x" ++ s
unfolding trim trim_start trim_end is_whitespace
trim-prefixed s h =
    ap (λ (t : Text). keep b'0' (keep b'x' t)) (trim_end-hexdigit s h)
    ∙ ap (keep b'0') (keep-solid b'x' s refl)

module _ (keccak256 : Text → List ℕ) where
  -- The tests that an accepted body has passed, and the address that comes of it.
  pub record IsAccepted (body : Text) (a : Address) : Type 0 where
    pub long : (byte_len body == 40) ≡ true
    pub hexadecimal : all is_hexdigit body ≡ true
    pub some_digit : all zero_digit body ≡ false
    pub canonical : a ≡ codes "0x" ++ checksum_body keccak256 (to_ascii_lowercase body)

  abbrev bad_checksum : Text → Bool
  bad_checksum body =
      any is_upper body
      && any is_lower body
      && not (text_eq (checksum_body keccak256 (to_ascii_lowercase body)) body)

  parse_body-IsAccepted :
      (body : Text) (a : Address) → parse_body keccak256 body ≡ ok a → IsAccepted body a
  unfolding parse_body
  parse_body-IsAccepted body a h = elim (Bool-cases (byte_len body == 40)) [
    | inr p ↦ absurd (cc (rw p at h))
    | inl p ↦ elim (Bool-cases (all is_hexdigit body)) [
      | inr q ↦ absurd (cc (rw (p, q) at h))
      | inl q ↦ elim (Bool-cases (bad_checksum body)) [
        | inl r ↦ absurd (cc (rw (p, q, r) at h))
        | inr r ↦ elim (Bool-cases (all zero_digit body)) [
          | inl z ↦ absurd (cc (rw (p, q, r, z) at h))
          | inr z ↦
              let same : ok (codes "0x" ++ checksum_body keccak256 (to_ascii_lowercase body))
                  ≡ ok a =
                rw (p, q, r, z) at h in
              record { long = p; hexadecimal = q; some_digit = z; canonical = cc }
        ]
      ]
    ]
  ]

  -- The checksum of what was written with its checksum agrees.
  parse_body-checksum :
      (body : Text) (a : Address)
      → IsAccepted body a
      → parse_body keccak256 (checksum_body keccak256 (to_ascii_lowercase body)) ≡ ok a
  unfolding parse_body checksum_body
  parse_body-checksum body a v =
      let hash = keccak256 (to_ascii_lowercase body) in
      rw
        (
          byte_len-checksum hash 0 body v.hexadecimal,
          v.long,
          hexdigit-checksum hash 0 body v.hexadecimal,
          lower-checksum hash 0 body v.hexadecimal,
          text_eq_refl (checksum_from hash 0 (to_ascii_lowercase body)),
          zeros-checksum hash 0 body v.hexadecimal,
          v.some_digit,
          and_false (
              any is_upper (checksum_body keccak256 (to_ascii_lowercase body))
              && any is_lower (checksum_body keccak256 (to_ascii_lowercase body))),
        )
        (sym (ap ok v.canonical))

  parse_evm-canonical :
      (body : Text) (a : Address) → IsAccepted body a → parse_evm keccak256 a ≡ ok a
  unfolding parse_evm
  parse_evm-canonical body a v =
      let hash = keccak256 (to_ascii_lowercase body) in
      let text = checksum_body keccak256 (to_ascii_lowercase body) in
      let solid : all is_hexdigit text ≡ true =
        unfold checksum_body in hexdigit-checksum hash 0 body v.hexadecimal in
      ap (parse_evm keccak256) v.canonical
      ∙ rw (parse_evm, trim-prefixed text solid) (parse_body-checksum body a v)

  storage_key-prefixed :
      (body : Text)
      → all is_hexdigit body ≡ true
      → storage_key (codes "0x" ++ checksum_body keccak256 (to_ascii_lowercase body))
        ≡ codes "0x" ++ to_ascii_lowercase body
  unfolding checksum_body
  storage_key-prefixed body h =
      ap (λ (t : Text). codes "0x" ++ t)
        (lower-checksum (keccak256 (to_ascii_lowercase body)) 0 body h)

  parse_evm-opened :
      (input : Text) (a : Address)
      → parse_evm keccak256 input ≡ ok a
      → (body : Text) × IsAccepted body a
  unfolding parse_evm
  parse_evm-opened input a h = elim (Option-cases (strip_prefix (codes "0x") (trim input))) [
    | inl n ↦ absurd (cc (rw (parse_evm, n) at h))
    | inr (body, e) ↦ (body, parse_body-IsAccepted body a (rw (parse_evm, e) at h))
  ]

-- An address that was accepted is read back as itself, so that parsing it again changes nothing; and
-- its storage key is the prefix with the hexadecimal digits in lower case, forty of them, which are
-- not all zero.
pub parse_canonical :
    (keccak256 : Text → List ℕ) (kind : ChainKind) (input : Text) (a : Address)
    → parse keccak256 kind input ≡ ok a
    → (parse keccak256 kind a ≡ ok a)
      × ((body : Text) × (byte_len body ≡ 40)
          × (all is_hexdigit body ≡ true)
          × (all zero_digit body ≡ false)
          × (storage_key a ≡ codes "0x" ++ to_ascii_lowercase body))
unfolding parse
parse_canonical keccak256 ChainKind.solana input a h = absurd (cc h)
parse_canonical keccak256 ChainKind.evm input a h =
    let (body, v) = parse_evm-opened keccak256 input a h in
    (
      parse_evm-canonical keccak256 body a v,
      (
        body,
        (==_iff _ _).0 v.long,
        v.hexadecimal,
        v.some_digit,
        ap storage_key v.canonical ∙ storage_key-prefixed keccak256 body v.hexadecimal,
      ),
    )

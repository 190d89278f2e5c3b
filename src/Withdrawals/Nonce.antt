-- ===== src/Withdrawals/Nonce.antt =====
-- `allocate_nonce` of crates/database/src/repo/withdrawals.rs, one statement under the row lock.
pub mod Increasing
use chain_rail.Base.{
  ℕ, ◌^◌, ◌-◌, Bool, true, false, ◌&&◌, List, [], ◌∷◌, Text, text_eq, if◌then◌else◌, ltb, leb_ℤ,
  ltb_ℤ, ℤ, pos, negsuc, ◌+ℤ◌, pos_part, not, is_lowercase,
}
use chain_rail.Common.Error.{Error}
use chain_rail.Common.Result.{Result, ok, err, M}

-- A row of `chain_nonces`.
pub record NonceRow : Type 0 where
  pub chain : Text
  pub address : Text
  pub next_nonce : ℤ

abbrev pub is_key : Text → Text → NonceRow → Bool
is_key chain address r = text_eq r.chain chain && text_eq r.address address

-- `as i64` of a u64
abbrev pub as_i64 : ℕ → ℤ
as_i64 n = if ltb n (2 ^ 63) then pos n else negsuc (2 ^ 64 - n - 1)

-- BIGINT
abbrev pub fits_i64 : ℤ → Bool
fits_i64 (pos n) = ltb n (2 ^ 63)
fits_i64 (negsuc n) = ltb n (2 ^ 63)

-- GREATEST
abbrev pub greatest : ℤ → ℤ → ℤ
greatest a b = if leb_ℤ a b then b else a

-- `next_nonce` as the upsert returns it.
abbrev pub next_of : Text → Text → ℤ → List NonceRow → ℤ
next_of chain address hint [] = hint +ℤ pos 1
next_of chain address hint (r ∷ rows) =
    let rest = next_of chain address hint rows in
    if is_key chain address r then greatest r.next_nonce hint +ℤ pos 1 else rest

-- The rows after INSERT ... ON CONFLICT (chain, address) DO UPDATE.
abbrev pub upsert : Text → Text → ℤ → List NonceRow → List NonceRow
upsert chain address hint [] =
    (record { chain = chain; address = address; next_nonce = hint +ℤ pos 1 }) ∷ []
upsert chain address hint (r ∷ rows) =
    let rest = upsert chain address hint rows in
    if is_key chain address r
    then (record r { next_nonce = greatest r.next_nonce hint +ℤ pos 1 }) ∷ rows
    else r ∷ rest

-- `chain_nonces_positive` and `chain_nonces_lowercase` of the row that is inserted, which are tested
-- before the conflict; a row that is updated meets them with it.
abbrev pub may_insert : Text → ℤ → Bool
may_insert address hint = leb_ℤ (pos 0) (hint +ℤ pos 1) && is_lowercase address

-- `allocate_nonce`: a value outside BIGINT is an error of the database. `nonce.max(0) as u64` is the
-- part of the integer that is not negative.
unfoldable pub allocate_nonce : Text → Text → ℕ → M (List NonceRow) ℕ
allocate_nonce chain address chain_nonce_hint rows =
    let next = next_of chain address (as_i64 chain_nonce_hint) rows in
    if not (fits_i64 next)
    then err Error.database
    else if not (may_insert address (as_i64 chain_nonce_hint))
    then err Error.validation
    else ok (pos_part (next +ℤ negsuc 0), upsert chain address (as_i64 chain_nonce_hint) rows)

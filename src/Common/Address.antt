-- ===== src/Common/Address.antt =====
-- crates/common/src/chain.rs: the identifiers of chains, addresses and hashes. The hash function
-- keccak256 is a parameter, as the bytes that it answers.
pub mod Canonical
use chain_rail.Base.{
  ℕ, zero, suc, ◌+◌, ◌/◌, ◌%◌, ◌^◌, Bool, true, false, ◌&&◌, ◌||◌, not, List, [], ◌∷◌, ◌++◌, Option,
  none, some, Text, codes, text_eq, ltb, leb, ◌==◌, if◌then◌else◌, all, any, is_digit, is_upper,
  is_lower, is_hexdigit, ascii_upper, to_ascii_lowercase, byte_len, strip_prefix,
}
use chain_rail.Common.Error.{Error}
use chain_rail.Common.Result.{Result, ok, err}
use chain_rail.Common.Money.Parse.{trim}

-- A `ChainId` is the text that `ChainId::new` accepts.
unfoldable pub new_chain_id : Text → Result Text
new_chain_id s =
    if ltb 0 (byte_len s)
      && leb (byte_len s) 64
      && all (λ (c : ℕ). is_lower c || is_digit c || c == b'-') s
    then ok s
    else err Error.unsupported_chain

pub data ChainKind : Type 0 where
  evm solana : ChainKind

-- An `Address` is its text.
abbrev pub Address : Type 0
Address = Text

-- The byte at an index.
abbrev pub byte_at : ℕ → List ℕ → ℕ
byte_at i [] = 0
byte_at zero (b ∷ bs) = b
byte_at (suc i) (b ∷ bs) = byte_at i bs

abbrev pub nibble_at : List ℕ → ℕ → ℕ
nibble_at hash i = if i % 2 == 0 then byte_at (i / 2) hash / 2 ^ 4 else byte_at (i / 2) hash % 2 ^ 4

abbrev pub cased : ℕ → ℕ → ℕ
cased nibble c = if is_digit c || ltb nibble 8 then c else ascii_upper c

-- The loop of `eip55_checksum`, from an index on.
unfoldable pub checksum_from : List ℕ → ℕ → Text → Text
checksum_from hash i [] = []
checksum_from hash i (c ∷ s) = cased (nibble_at hash i) c ∷ checksum_from hash (i + 1) s

-- `Address::storage_key`
abbrev pub storage_key : Address → Text
storage_key a = to_ascii_lowercase a

-- What `Hash32::parse` makes of the text behind the prefix.
abbrev or_whole : Text → Option Text → Text
or_whole s none = s
or_whole s (some t) = t

abbrev hash_of_body : Text → Result Text
hash_of_body body =
    if not (byte_len body == 64) || not (all is_hexdigit body)
    then err Error.validation
    else ok (codes "0x" ++ to_ascii_lowercase body)

-- `Hash32::parse`
unfoldable pub parse_hash : Text → Result Text
parse_hash input = hash_of_body (or_whole (trim input) (strip_prefix (codes "0x") (trim input)))

module _ (keccak256 : Text → List ℕ) where
  -- `eip55_checksum` behind the prefix that it writes.
  unfoldable pub checksum_body : Text → Text
  checksum_body lower_body = checksum_from (keccak256 lower_body) 0 lower_body

  -- The tests of `parse_evm` on the text behind the prefix.
  unfoldable pub parse_body : Text → Result Address
  parse_body body =
      if not (byte_len body == 40)
      then err Error.invalid_address
      else if not (all is_hexdigit body)
      then err Error.invalid_address
      else if any is_upper body
          && any is_lower body
          && not (text_eq (checksum_body (to_ascii_lowercase body)) body)
      then err Error.invalid_address
      else if all (λ (c : ℕ). c == b'0') body
      then err Error.invalid_address
      else ok (codes "0x" ++ checksum_body (to_ascii_lowercase body))

  -- `Address::parse_evm`
  unfoldable pub parse_evm : Text → Result Address
  parse_evm input = elim (strip_prefix (codes "0x") (trim input)) [
    | none ↦ err Error.invalid_address
    | some body ↦ parse_body body
  ]

  -- `Address::parse`
  unfoldable pub parse : ChainKind → Text → Result Address
  parse ChainKind.evm input = parse_evm input
  parse ChainKind.solana input = err Error.invalid_address

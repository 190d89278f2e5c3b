-- ===== src/Models/Asset.antt =====
-- `Asset` of crates/database/src/models.rs, and the look-ups of crates/database/src/repo/reference.rs.
use chain_rail.Base.{ℕ, ◌&&◌, List, [], ◌∷◌, Option, none, some, Text, text_eq, ◌==◌, if◌then◌else◌}

-- A row of `assets`.
pub record Asset : Type 0 where
  pub id : ℕ
  pub symbol : Text
  pub chain : Text
  pub contract_address : Option Text
  pub decimals : ℕ

abbrev pub find_asset : ℕ → List Asset → Option Asset
find_asset i [] = none
find_asset i (a ∷ later) = if a.id == i then some a else find_asset i later

-- WHERE chain = $1 AND symbol = $2
abbrev pub find_symbol : Text → Text → List Asset → Option Asset
find_symbol chain symbol [] = none
find_symbol chain symbol (a ∷ later) =
    if text_eq a.chain chain && text_eq a.symbol symbol
    then some a
    else find_symbol chain symbol later

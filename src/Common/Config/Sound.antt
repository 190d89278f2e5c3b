-- ===== src/Common/Config/Sound.antt =====
-- What an accepted configuration promises (crates/common/src/config.rs).
use mathlib.Core.List.{Memᴰ}
use chain_rail.Base.{
  ℕ, ◌<◌, ◌≡◌, refl, Bool, true, false, ◌&&◌, ◌||◌, not, List, [], ◌∷◌, Option, none, some, Text,
  text_eq, text_eq_refl, eq_of_text_eq, ltb→lt, any, find, Bool-cases, inl, inr, arith,
}
use chain_rail.Common.Result.{ok, err, Result-cases}
use chain_rail.Common.Finality.{required_confirmations}
use chain_rail.Common.Address.{ChainKind, Address, parse}
use chain_rail.Common.Config.{
  AppConfig, ChainConfig, AssetConfig, Checked, ensure, ◌then_also◌, each_new, is_none, is_nil,
  is_evm, check_depth, check_address, check_asset, check_chain, check_production,
  is_production_like, SignerConfig, asset, is_development_signer, validate, chain,
}

then_also-ok : (a b : Checked) → a then_also b ≡ ok tt → (a ≡ ok tt) × (b ≡ ok tt)
then_also-ok (ok u) b h = (refl, h)
then_also-ok (err e) b h = cc

ensure-ok : (b : Bool) → ensure b ≡ ok tt → b ≡ true
ensure-ok true h = refl
ensure-ok false h = cc

not-true : (b : Bool) → not b ≡ true → b ≡ false
not-true b h = ground arith

or_false : (a b : Bool) → (a || b) ≡ false → (a ≡ false) × (b ≡ false)
or_false a b h = (ground arith, ground arith)

text_eq_sym : (s t : Text) → text_eq s t ≡ false → text_eq t s ≡ false
text_eq_sym s t h = elim (Bool-cases (text_eq t s)) [
  | inl p ↦ absurd (cc (text_eq_refl s, rw (eq_of_text_eq t s p) at h))
  | inr p ↦ p
]

-- What a loop with a set of seen keys has found, where it accepts.
module _ {A : Type 0} (key : A → Text) (f : A → Checked) where
  each_new-member :
      (seen : List Text) (x : A) (xs : List A)
      → each_new key f seen xs ≡ ok tt
      → Memᴰ x xs
      → (f x ≡ ok tt) × (any (text_eq (key x)) seen ≡ false)
  unfolding each_new
  each_new-member seen x [] h m = elim m [ ]
  each_new-member seen x (y ∷ ys) h (Memᴰ.head e) =
      let (p, q) = then_also-ok _ _ h in
      let (r, t) = then_also-ok _ _ q in rw e (r, not-true _ (ensure-ok _ p))
  each_new-member seen x (y ∷ ys) h (Memᴰ.tail m) =
      let (p, q) = then_also-ok _ _ h in
      let (r, t) = then_also-ok _ _ q in
      let (g, n) = each_new-member (key y ∷ seen) x ys t m in
      (g, (or_false (text_eq (key x) (key y)) (any (text_eq (key x)) seen) n).1)

  each_new-find :
      (seen : List Text) (x : A) (xs : List A)
      → each_new key f seen xs ≡ ok tt
      → Memᴰ x xs
      → find (λ (y : A). text_eq (key y) (key x)) xs ≡ some x
  unfolding each_new
  each_new-find seen x [] h m = elim m [ ]
  each_new-find seen x (y ∷ ys) h (Memᴰ.head e) = rw (e, text_eq_refl (key y)) refl
  each_new-find seen x (y ∷ ys) h (Memᴰ.tail m) =
      let (p, q) = then_also-ok _ _ h in
      let (r, t) = then_also-ok _ _ q in
      let (g, n) = each_new-member (key y ∷ seen) x ys t m in
      let apart = (or_false (text_eq (key x) (key y)) (any (text_eq (key x)) seen) n).0 in
      rw (text_eq_sym (key x) (key y) apart) (each_new-find (key y ∷ seen) x ys t m)

-- Every signer that there is to configure is refused in production.
production_lem : (cfg : AppConfig) → check_production cfg ≡ ok tt → is_production_like cfg ≡ false
unfolding check_production
production_lem cfg h = elim (Bool-cases (is_production_like cfg)) [
  | inr p ↦ p
  | inl p ↦ absurd (every_signer cfg.signer (then_also-ok _ _ (rw p at h)).0)
]
  where
    every_signer : (s : SignerConfig) → ensure (not (is_development_signer s)) ≡ ok tt → ⊥
    every_signer (SignerConfig.local_development k) e = cc
    every_signer SignerConfig.mock e = cc

-- An asset of a chain that may be withdrawn has a hot wallet, with an address that parses.
abbrev pub HasWallet : (Text → List ℕ) → ChainConfig → Type 0
HasWallet keccak256 c =
    (w : Text) × (a : Address) × (c.hot_wallet_address ≡ some w) × (parse keccak256 c.kind w ≡ ok a)

pub record IsUsable (keccak256 : Text → List ℕ) (production : Bool) (c : ChainConfig) : Type 0 where
  pub is_evm : c.kind ≡ ChainKind.evm
  pub has_endpoint : is_nil c.rpc ≡ false
  pub has_chain_id : is_none c.numeric_chain_id ≡ false
  pub deep_scan : (n : ℕ) → required_confirmations c.finality ≡ some n → n < c.reorg_scan_depth
  pub has_wallet :
      (a : AssetConfig) → Memᴰ a c.assets → a.withdrawals_enabled ≡ true → HasWallet keccak256 c
  pub found : (a : AssetConfig) → Memᴰ a c.assets → asset c a.symbol ≡ some a

evm_lem : (k : ChainKind) → is_evm k ≡ true → k ≡ ChainKind.evm
evm_lem ChainKind.evm h = refl
evm_lem ChainKind.solana h = cc

depth_lem : (d n : ℕ) (o : Option ℕ) → check_depth d o ≡ ok tt → o ≡ some n → n < d
depth_lem d n none h e = cc
depth_lem d n (some m) h e =
    let less = ltb→lt m d (ensure-ok _ h) in let same : m ≡ n = cc in rw (← same) less

wallet_lem :
    (keccak256 : Text → List ℕ) (c : ChainConfig) (o : Option Text)
    → c.hot_wallet_address ≡ o
    → is_none o ≡ false
    → check_address keccak256 c.kind o ≡ ok tt
    → HasWallet keccak256 c
wallet_lem keccak256 c none e n h = cc
wallet_lem keccak256 c (some w) e n h = elim (Result-cases (parse keccak256 c.kind w)) [
  | inl (a, p) ↦ (w, a, e, p)
  | inr (x, p) ↦ absurd (cc (rw p at h))
]

needs_wallet : (a b : Bool) → not (a && b) ≡ true → a ≡ true → b ≡ false
needs_wallet a b h e = ground arith

module _ (keccak256 : Text → List ℕ) (production : Bool) (c : ChainConfig) where
  asset_lem :
      (a : AssetConfig)
      → each_new (λ (a : AssetConfig). a.symbol) (check_asset keccak256 c) [] c.assets ≡ ok tt
      → Memᴰ a c.assets
      → a.withdrawals_enabled ≡ true
      → is_none c.hot_wallet_address ≡ false
  unfolding check_asset
  asset_lem a h m e =
      let (f, n) =
        each_new-member (λ (a : AssetConfig). a.symbol) (check_asset keccak256 c) [] a c.assets h
          m in
      let (p, q) = then_also-ok _ _ f in
      let (r, t) = then_also-ok _ _ q in needs_wallet a.withdrawals_enabled _ (ensure-ok _ t) e

  check_chain-IsUsable :
      check_chain keccak256 production c ≡ ok tt → IsUsable keccak256 production c
  unfolding check_chain
  check_chain-IsUsable h =
      let (rpc, h1) = then_also-ok _ _ h in
      let (numeric, h2) = then_also-ok _ _ h1 in
      let (poll, h3) = then_also-ok _ _ h2 in
      let (depth, h4) = then_also-ok _ _ h3 in
      let (endpoints, h5) = then_also-ok _ _ h4 in
      let (assets, h6) = then_also-ok _ _ h5 in
      let (wallet, evm) = then_also-ok _ _ h6 in
      let kind = evm_lem c.kind (ensure-ok _ evm) in
      record {
        is_evm = kind;
        has_endpoint = not-true _ (ensure-ok _ rpc);
        has_chain_id = needs_wallet (is_evm c.kind) _ (ensure-ok _ numeric) (ensure-ok _ evm);
        deep_scan =
            λ n e. depth_lem c.reorg_scan_depth n (required_confirmations c.finality) depth e;
        has_wallet = λ a m e.
            wallet_lem keccak256 c c.hot_wallet_address refl (asset_lem a assets m e) wallet;
        found = λ a m.
            each_new-find (λ (a : AssetConfig). a.symbol) (check_asset keccak256 c) [] a c.assets
              assets m;
      }

-- An accepted configuration is not of production, since every signer that can be configured is refused
-- there; and each of its chains is found under its identifier, is an EVM chain with an endpoint and a
-- chain id, scans deeper for reorganisations than it waits for confirmations, finds each of its
-- assets under its symbol, and has a hot wallet with a valid address where one of its assets may be
-- withdrawn.
pub validate-IsUsable :
    (keccak256 : Text → List ℕ) (cfg : AppConfig)
    → validate keccak256 cfg ≡ ok tt
    → (is_production_like cfg ≡ false)
      × ((c : ChainConfig)
          → Memᴰ c cfg.chains
          → (chain cfg c.id ≡ some c) × IsUsable keccak256 (is_production_like cfg) c)
unfolding validate
validate-IsUsable keccak256 cfg h =
    let (services, h1) = then_also-ok _ _ h in
    let (production, h2) = then_also-ok _ _ h1 in
    let (signer, h3) = then_also-ok _ _ h2 in
    let (some_chain, h4) = then_also-ok _ _ h3 in
    let (chains, risk) = then_also-ok _ _ h4 in
    let key = λ (c : ChainConfig). c.id in
    let test = check_chain keccak256 (is_production_like cfg) in
    (
      production_lem cfg production,
      λ c m. (
        each_new-find key test [] c cfg.chains chains m,
        check_chain-IsUsable keccak256 (is_production_like cfg) c
            (each_new-member key test [] c cfg.chains chains m).0,
      ),
    )

-- ===== src/Chat/Models.antt =====
-- The registry of models (backend/app/core/model_registry.py), over the content of models.yaml.
use atlas_knowledge.Common.{
  ◌≡◌, refl, ℕ, Bool, true, false, List, [], ◌∷◌, Option, none, some, if◌then◌else◌, inl, inr,
  Option-cases, Text, text_eq, Outcome, ok, err,
}

-- An entry of `aliases`; its temperature is a number of tenths.
pub record AliasConfig : Type 0 where
  pub provider : Option Text
  pub model : Option Text
  pub temperature : Option ℕ
  pub max_tokens : Option ℕ

pub record ModelsConfig : Type 0 where
  pub default_alias : Option Text
  pub aliases : List (Text × AliasConfig)

-- A key that is missing, which raises.
pub data Missing : Type 0 where
  missing_key : Missing

pub record ResolvedModel : Type 0 where
  pub provider : Text
  pub model : Text
  pub temperature : ℕ
  pub max_tokens : Option ℕ

abbrev pub find_alias : Text → List (Text × AliasConfig) → Option AliasConfig
find_alias alias [] = none
find_alias alias ((name, cfg) ∷ rest) =
    let found = find_alias alias rest in if text_eq name alias then some cfg else found

unfoldable pub alias_exists : ModelsConfig → Text → Bool
alias_exists config alias = elim (find_alias alias config.aliases) [
  | none ↦ false
  | some cfg ↦ true
]

abbrev pub or_default : ℕ → Option ℕ → ℕ
or_default n none = n
or_default n (some m) = m

-- The end of `resolve`: both names are read with `[…]`, the parameters with `get`.
abbrev pub resolved_with : AliasConfig → Option Text → Option Text → Outcome Missing ResolvedModel
resolved_with cfg none model = err missing_key
resolved_with cfg (some provider) none = err missing_key
resolved_with cfg (some provider) (some model) = ok (record {
  provider = provider;
  model = model;
  temperature = or_default 7 cfg.temperature;
  max_tokens = cfg.max_tokens;
})

abbrev pub resolved : Option AliasConfig → Outcome Missing ResolvedModel
resolved none = err missing_key
resolved (some cfg) = resolved_with cfg cfg.provider cfg.model

-- `default_alias()`, and the entry under it
abbrev pub resolve_default : ModelsConfig → Option Text → Outcome Missing ResolvedModel
resolve_default config none = err missing_key
resolve_default config (some alias) = resolved (find_alias alias config.aliases)

unfoldable pub resolve : ModelsConfig → Text → Outcome Missing ResolvedModel
resolve config alias = elim (find_alias alias config.aliases) [
  | none ↦ resolve_default config config.default_alias
  | some cfg ↦ resolved (some cfg)
]

-- An alias that was taken out of the file is served by the default, whatever else the file holds.
resolve-alias_exists :
    (config : ModelsConfig) (alias default : Text)
    → alias_exists config alias ≡ false
    → config.default_alias ≡ some default
    → resolve config alias ≡ resolve config default
unfolding resolve alias_exists
resolve-alias_exists config alias default gone e =
    elim (Option-cases (find_alias alias config.aliases)) [
      | inr (cfg, found) ↦ let bad : true ≡ false = rw (found, alias_exists) at gone in cc bad
      | inl lost ↦ elim (Option-cases (find_alias default config.aliases)) [
        | inl f ↦ simp (resolve, lost, e, f) refl
        | inr (cfg, f) ↦ simp (resolve, lost, e, f) refl
      ]
    ]

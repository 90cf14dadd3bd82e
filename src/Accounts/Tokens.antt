-- ===== src/Accounts/Tokens.antt =====
-- The tokens `seiza_<kind>_<uuid>_<secret>` of src/auth.rs: printing and parsing.
use seiza_server.Base.{
  ℕ, zero, suc, ◌+◌, ◌≡◌, ◌≢◌, refl, ap, ◌∙◌, inl, inr, not, ◌||◌, Option, none, some, List, [],
  ◌∷◌, ◌++◌, map, arith, Text, text, text_eq, text_eq_refl, ◌==◌, if◌then◌else◌, length, All,
  Bool-cases,
}
use seiza_server.Accounts.Secrets.{Primitives}

abbrev pub underscore : ℕ
underscore = b'_'

module _ (p : Primitives) where
  -- `_` and the UUID, for each.
  unfoldable pub format_ids : List ℕ → Text → Text
  format_ids [] rest = rest
  format_ids (id ∷ ids) rest = underscore ∷ (p.uuid_to_string id ++ format_ids ids rest)

  unfoldable pub format_prefixed_token : Text → List ℕ → Text → Text
  unfolding format_ids
  format_prefixed_token kind ids secret =
      text "seiza_" ++ (kind ++ format_ids ids (underscore ∷ secret))

-- Up to the first `_`, and what is behind it.
unfoldable pub split_once : Text → Text × Option Text
split_once [] = ([], none)
split_once (c ∷ cs) =
    let (before, after) = split_once cs in
    if c == underscore then ([], some cs) else (c ∷ before, after)

abbrev onward : (Text → List Text) → Option Text → List Text
onward split none = []
onward split (some rest) = split rest

-- `splitn(n, '_')`.
unfoldable pub splitn : ℕ → Text → List Text
unfolding split_once
splitn zero s = []
splitn (suc zero) s = s ∷ []
splitn (suc (suc n)) s = (split_once s).0 ∷ onward (splitn (suc n)) (split_once s).1

module _ (p : Primitives) where
  abbrev with_id : Option ℕ → Option (List ℕ × List Text) → Option (List ℕ × List Text)
  with_id none rest = none
  with_id (some id) none = none
  with_id (some id) (some (ids, components)) = some (id ∷ ids, components)

  -- The next `n` components as UUIDs, and the components behind them.
  unfoldable pub parse_ids : ℕ → List Text → Option (List ℕ × List Text)
  parse_ids zero components = some ([], components)
  parse_ids (suc n) [] = none
  parse_ids (suc n) (component ∷ components) =
      with_id (p.parse_uuid component) (parse_ids n components)

  abbrev with_secret : Option (List ℕ × List Text) → Option (List ℕ × Text)
  with_secret none = none
  with_secret (some (ids, [])) = none
  with_secret (some (ids, [] ∷ components)) = none
  with_secret (some (ids, (c ∷ cs) ∷ components)) = some (ids, c ∷ cs)

  abbrev of_kind : ℕ → Text → List Text → Option (List ℕ × Text)
  of_kind n kind [] = none
  of_kind n kind (first ∷ []) = none
  of_kind n kind (first ∷ second ∷ components) =
      if not (text_eq first (text "seiza")) || not (text_eq second kind)
      then none
      else with_secret (parse_ids n components)

  unfoldable pub parse_prefixed_token : ℕ → Text → Text → Option (List ℕ × Text)
  unfolding splitn parse_ids
  parse_prefixed_token n token kind = of_kind n kind (splitn (3 + n) token)

  abbrev one_id : Option (List ℕ × Text) → Option (ℕ × Text)
  one_id (some (id ∷ [], secret)) = some (id, secret)
  one_id _ = none

  abbrev two_ids : Option (List ℕ × Text) → Option (ℕ × ℕ × Text)
  two_ids (some (first ∷ second ∷ [], secret)) = some (first, second, secret)
  two_ids _ = none

  unfoldable pub parse_login_token : Text → Option (ℕ × Text)
  unfolding parse_prefixed_token
  parse_login_token token = one_id (parse_prefixed_token 1 token (text "login"))

  unfoldable pub parse_session_token : Text → Option (ℕ × ℕ × Text)
  unfolding parse_prefixed_token
  parse_session_token token = two_ids (parse_prefixed_token 2 token (text "session"))

  unfoldable pub parse_api_key_token : Text → Option (ℕ × ℕ × Text)
  unfolding parse_prefixed_token
  parse_api_key_token token = two_ids (parse_prefixed_token 2 token (text "key"))

-- A text without `_`.
abbrev pub NoUnderscore : Text → Type 0
NoUnderscore s = All (λ c. c ≢ underscore) s

split_once-append :
    (s rest : Text) → NoUnderscore s → split_once (s ++ underscore ∷ rest) ≡ (s, some rest)
unfolding split_once
split_once-append [] rest h = ground arith
split_once-append (c ∷ cs) rest h =
    rw (split_once-append cs rest h.1)
      (elim (Bool-cases (c == underscore)) [ inl e ↦ ground (arith, e, h.0) | inr e ↦ rw e refl ])

splitn-append :
    (n : ℕ) (s rest : Text)
    → NoUnderscore s
    → splitn (suc (suc n)) (s ++ underscore ∷ rest) ≡ s ∷ splitn (suc n) rest
unfolding splitn
splitn-append n s rest h = rw (split_once-append s rest h) refl

-- What is relied on of UUIDs as text.
pub record IsUuid (p : Primitives) : Type 0 where
  pub parse-to_string : (id : ℕ) → p.parse_uuid (p.uuid_to_string id) ≡ some id
  pub no_underscore : (id : ℕ) → NoUnderscore (p.uuid_to_string id)

seiza_plain : NoUnderscore (text "seiza")
seiza_plain = ground arith

three : (n : ℕ) → 3 + n ≡ suc (suc (suc n))
three n = omega arith

module _ (p : Primitives) (law : IsUuid p) (secret : Text) where
  -- Behind the first `_` of the formatted ids.
  behind : List ℕ → Text
  behind [] = secret
  behind (id ∷ ids) = p.uuid_to_string id ++ underscore ∷ behind ids

  format_ids-behind :
      (ids : List ℕ) → format_ids p ids (underscore ∷ secret) ≡ underscore ∷ behind ids
  unfolding format_ids behind
  format_ids-behind [] = refl
  format_ids-behind (id ∷ ids) = rw (format_ids-behind ids) refl

  splitn-behind :
      (ids : List ℕ)
      → splitn (suc (length ids)) (behind ids) ≡ map (λ id. p.uuid_to_string id) ids ++ secret ∷ []
  unfolding behind splitn
  splitn-behind [] = refl
  splitn-behind (id ∷ ids) =
      splitn-append (length ids) (p.uuid_to_string id) (behind ids) (law.no_underscore id)
      ∙ ap (λ components. p.uuid_to_string id ∷ components) (splitn-behind ids)

  parse_ids-map :
      (ids : List ℕ)
      → parse_ids p (length ids) (map (λ id. p.uuid_to_string id) ids ++ secret ∷ [])
        ≡ some (ids, secret ∷ [])
  unfolding parse_ids
  parse_ids-map [] = refl
  parse_ids-map (id ∷ ids) = rw (law.parse-to_string id) (rw (parse_ids-map ids) refl)

  pieces :
      (kind : Text) (ids : List ℕ)
      → NoUnderscore kind
      → splitn (3 + length ids) (text "seiza" ++ underscore ∷ (kind ++ underscore ∷ behind ids))
        ≡ text "seiza" ∷ kind ∷ (map (λ id. p.uuid_to_string id) ids ++ secret ∷ [])
  pieces kind ids plain =
      ap (λ n. splitn n (text "seiza" ++ underscore ∷ (kind ++ underscore ∷ behind ids)))
        (three (length ids))
      ∙ splitn-append (suc (length ids)) (text "seiza") (kind ++ underscore ∷ behind ids)
          seiza_plain
      ∙ ap (λ rest. text "seiza" ∷ rest) (splitn-append (length ids) kind (behind ids) plain)
      ∙ ap (λ rest. text "seiza" ∷ kind ∷ rest) (splitn-behind ids)

-- A token that was formatted from a kind without `_`, from UUIDs and a secret that is not empty is
-- parsed to those UUIDs and that secret, whatever `_` the secret holds.
pub parse-format_prefixed_token :
    (p : Primitives) (kind : Text) (ids : List ℕ) (c : ℕ) (cs : Text)
    → IsUuid p
    → NoUnderscore kind
    → parse_prefixed_token p (length ids) (format_prefixed_token p kind ids (c ∷ cs)) kind
      ≡ some (ids, c ∷ cs)
unfolding parse_prefixed_token format_prefixed_token
parse-format_prefixed_token p kind ids c cs law plain = rw (format_ids-behind p law (c ∷ cs) ids) (
    rw (pieces p law (c ∷ cs) kind ids plain) (
      rw (text_eq_refl (text "seiza"))
        (rw (text_eq_refl kind) (rw (parse_ids-map p law (c ∷ cs) ids) refl))))

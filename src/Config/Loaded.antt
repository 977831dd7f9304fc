-- ===== src/Config/Loaded.antt =====
-- The results of `Load` in internal/config/config.go.
use tickstore.Prelude.{
  >>=-eq-ok, Bytes, Option, [], ok, ok_inj, or_fail, or_fail-eq-ok, refl, some, subst, wrap_error,
  wrap_error-eq-ok, ◌↔◌, ◌≡◌, ◌≢◌,
}
use tickstore.Config.{Config, invalid, load, unparsable, unreadable, validate}
use tickstore.Config.Valid.{IsValid, validate-ok}

module _ (read : Bytes → Option Bytes) (expand_env : Bytes → Bytes)
    (unmarshal : Bytes → Option Config) where
  -- The file can be read, its text with the environment's values parses as this configuration, and
  -- the configuration has venues, each with a name of its own and at least one symbol.
  abbrev pub IsLoaded : Bytes → Config → Type 0
  IsLoaded path c =
      (text : Bytes) × (read path ≡ some text)
      × (unmarshal (expand_env text) ≡ some c)
      × (c.venues ≢ [])
      × IsValid c.venues

  load_sound :
      (path : Bytes) (c : Config) → load read expand_env unmarshal path ≡ ok c → IsLoaded path c
  unfolding load
  load_sound path c h =
      let (text, found, h0) = >>=-eq-ok (or_fail unreadable (read path)) _ h in
      let (parsed, read_as, h1) =
        >>=-eq-ok (or_fail unparsable (unmarshal (expand_env text))) _ h0 in
      let (u, checked, h2) = >>=-eq-ok (wrap_error invalid (validate parsed.venues)) _ h1 in
      let (some_venue, valid) =
        (validate-ok parsed.venues).0 (wrap_error-eq-ok invalid (validate parsed.venues) checked) in
      subst (IsLoaded path) (ok_inj h2) (
        text,
        or_fail-eq-ok unreadable (read path) found,
        or_fail-eq-ok unparsable (unmarshal (expand_env text)) read_as,
        some_venue,
        valid,
      )

  load_complete :
      (path : Bytes) (c : Config) → IsLoaded path c → load read expand_env unmarshal path ≡ ok c
  unfolding load
  load_complete path c (text, found, parsed, some_venue, valid) =
      rw (found, parsed, (validate-ok c.venues).1 (some_venue, valid)) refl

  -- `Load` returns a configuration if and only if the file can be read, its text with the
  -- environment's values parses as that configuration, and it has venues, each with a name that no
  -- other has and with at least one symbol.
  pub load-ok :
      (path : Bytes) (c : Config)
      → (load read expand_env unmarshal path ≡ ok c) ↔ (
          (text : Bytes) × (read path ≡ some text)
          × (unmarshal (expand_env text) ≡ some c)
          × (c.venues ≢ [])
          × IsValid c.venues)
  load-ok path c = (load_sound path c, load_complete path c)

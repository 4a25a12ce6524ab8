-- ===== src/Server/Start/Own.antt =====
-- With what a server runs outside insecure demo mode (internal/server/server.go,
-- cmd/attestam/main.go).
use attes_tam.Base.{
  ℕ, ◌≡◌, ◌≢◌, refl, ap, sym, ◌∙◌, Bool, true, false, Option, none, some, [], Bytes, bytes_eq,
  Bool-cases, inl, inr,
}
use attes_tam.Model.{other, Db}
use attes_tam.Exec.{Result, ok, ok-injective, World, pure, lift}
use attes_tam.Exec.Gives.{
  Gives, Gives-bind, Gives-given, Gives-if, Gives-if_some, Gives-lift, Gives-pure, Gives-raise,
}
use attes_tam.Config.{
  TamConfig, RaConfig, Environment, Flags, tam_config, env_insecure_demo_mode, given, bool_from_env,
}
use attes_tam.Rats.Results.{
  required, required-eq-ok, >>=-eq-ok, Yields, Yields-bind, Yields-ok, ◌>>=◌,
}
use attes_tam.Tam.Library.{Library, Verifier, Tam}
use attes_tam.Tam.Construct.{
  key_file, new_tam_with_ra_config, new_tam_from_key_bytes_with_ra_config,
  new_tam_from_key_bytes_and,
}
use attes_tam.Tam.Seed.{seed_demo_data}
use attes_tam.Server.Start.{Server, init_db, tam_of, new_server, start}

module _ {Key : Type 0} (lib : Library Key) (ec2 : Bytes → Bytes → Key)
    (resolver : RaConfig → Bytes → Result (Option (Verifier Key)))
    (read_file : Bytes → Option Bytes) (opened : Bytes → Option Db) where
  -- The key is that of the file, and the database is that of its path, as it was.
  pub record IsOwn (s : Server Key) (d : Db) : Type 0 where
    pub key_bytes : Bytes
    pub is_file : read_file s.cfg.tam_teep_private_key_path ≡ some key_bytes
    pub is_key : lib.decode_key key_bytes ≡ some s.tam.tam_key
    pub is_database : opened s.cfg.db_path ≡ some d
    pub seeds_nothing : s.cfg.insecure_demo_mode ≡ false

  init_db-Gives :
      (path : Bytes)
      → {C : Type 0}
      → Gives
          (λ _. C)
          (init_db lib ec2 resolver read_file opened path)
          (λ _ d. C × (opened path ≡ some d))
  unfolding init_db
  init_db-Gives path =
      Gives-if_some (opened path) _ _ (λ d e. record { give = λ w a h r. (h, e) })
        (λ _. Gives-raise other)

  key_file-eq-ok :
      (path bytes : Bytes)
      → key_file lib resolver read_file path ≡ ok bytes
      → read_file path ≡ some bytes
  unfolding key_file
  key_file-eq-ok path bytes h = elim (Bool-cases (bytes_eq path [])) [
    | inl e ↦ let refused = rw e at h in cc
    | inr e ↦ required-eq-ok _ _ (rw e at h)
  ]

  tam_of-key :
      (cfg : TamConfig) (t : Tam Key)
      → cfg.insecure_demo_mode ≡ false
      → tam_of lib ec2 resolver read_file opened cfg ≡ ok t
      → (bytes : Bytes) × ((read_file cfg.tam_teep_private_key_path ≡ some bytes)
          × (lib.decode_key bytes ≡ some t.tam_key))
  unfolding new_tam_with_ra_config key_file new_tam_from_key_bytes_with_ra_config
      new_tam_from_key_bytes_and bytes_eq
  tam_of-key cfg t own h =
      let (bytes, (read, rest)) =
        >>=-eq-ok (key_file lib resolver read_file cfg.tam_teep_private_key_path) _ t
          (rw own at h) in
      let (key, (decoded, made)) = >>=-eq-ok _ _ t rest in
      (
        bytes,
        (
          key_file-eq-ok cfg.tam_teep_private_key_path bytes read,
          required-eq-ok _ _ decoded ∙ ap (λ (x : Tam Key). some x.tam_key) (ok-injective _ _ made),
        ),
      )

  IsOwn-tam_of :
      (cfg : TamConfig) (t : Tam Key) (d : Db)
      → cfg.insecure_demo_mode ≡ false
      → tam_of lib ec2 resolver read_file opened cfg ≡ ok t
      → opened cfg.db_path ≡ some d
      → IsOwn (record { cfg = cfg; tam = t }) d
  IsOwn-tam_of cfg t d own made opens =
      let (bytes, (read, decoded)) = tam_of-key cfg t own made in
      record {
        key_bytes = bytes;
        is_file = read;
        is_key = decoded;
        is_database = opens;
        seeds_nothing = own;
      }

  new_server-Gives :
      (cfg : TamConfig)
      → Gives
          (λ _. cfg.insecure_demo_mode ≡ false)
          (new_server lib ec2 resolver read_file opened cfg)
          IsOwn
  unfolding new_server
  new_server-Gives cfg = Gives-given λ own.
      Gives-if _ _ _ (λ _. Gives-raise other)
        λ _.
          Gives-bind (λ t _. tam_of lib ec2 resolver read_file opened cfg ≡ ok t) (lift _) _
            (Gives-lift _ (λ d t h e. e))
            λ t.
              Gives-bind
                (λ _ d.
                  tam_of lib ec2 resolver read_file opened cfg ≡ ok t
                  × (opened cfg.db_path ≡ some d))
                (init_db lib ec2 resolver read_file opened cfg.db_path) _
                (init_db-Gives cfg.db_path)
                λ _.
                  Gives-bind
                    (λ _ d.
                      (tam_of lib ec2 resolver read_file opened cfg ≡ ok t)
                      × (opened cfg.db_path ≡ some d))
                    _ _
                    (Gives-if cfg.insecure_demo_mode (seed_demo_data lib ec2) (pure tt)
                      (λ demo. let never = sym demo ∙ own in cc) (λ _. Gives-pure tt (λ d h. h)))
                    λ _. Gives-pure _ λ d h. IsOwn-tam_of cfg t d own h.0 h.1

  -- A variable that does not say true, and a default that does not either if it is not set.
  Yields-off :
      (env : Environment) (parse_bool : Bytes → Option Bool) (parse_duration : Bytes → Option ℕ)
      {P : TamConfig → Type 0} (default : Bool) (key : Bytes) (f : Bool → Result TamConfig)
      → ((value : Bytes) → env key ≡ some value → parse_bool value ≢ some true)
      → (env key ≡ none → default ≡ false)
      → Yields P (f false)
      → Yields P (bool_from_env env parse_bool parse_duration key default >>= f)
  Yields-off env parse_bool parse_duration {P} default key f never off h = found (env key) never off
    where
      parsed : (o : Option Bool) → o ≢ some true → Yields P (required o >>= f)
      parsed none n = record { yields = λ x e. cc }
      parsed (some true) n = absurd (n refl)
      parsed (some false) n = h

      found :
          (o : Option Bytes)
          → ((value : Bytes) → o ≡ some value → parse_bool value ≢ some true)
          → (o ≡ none → default ≡ false)
          → Yields P (given env parse_bool parse_duration parse_bool default o >>= f)
      found none n d = rw (d refl) h
      found (some value) n d = parsed (parse_bool value) (n value refl)

  config_is_own :
      (env : Environment) (parse_bool : Bytes → Option Bool) (parse_duration : Bytes → Option ℕ)
      (flags : TamConfig)
      → ((value : Bytes) → env env_insecure_demo_mode ≡ some value → parse_bool value ≢ some true)
      → (env env_insecure_demo_mode ≡ none → flags.insecure_demo_mode ≡ false)
      → Yields (λ x. x.insecure_demo_mode ≡ false) (tam_config env parse_bool parse_duration flags)
  unfolding tam_config
  config_is_own env parse_bool parse_duration flags never off =
      search (Yields-off, Yields-bind, Yields-ok, never, off) depth 16 fits 5000

  -- If the environment variable of insecure demo mode is set to no value that parses as true, and the
  -- flag does not ask for it where the variable is not set, then a server that starts has the key of
  -- its key file, and its database is the one of its path, with nothing seeded.
  pub start-IsOwn :
      (env : Environment) (parse_bool : Bytes → Option Bool) (parse_duration : Bytes → Option ℕ)
      (flags : Flags) (w : World) (s : Server Key)
      → ((value : Bytes) → env env_insecure_demo_mode ≡ some value → parse_bool value ≢ some true)
      → (env env_insecure_demo_mode ≡ none → flags.config.insecure_demo_mode ≡ false)
      → (start lib ec2 resolver read_file opened env parse_bool parse_duration flags w).0 ≡ ok s
      → IsOwn s (start lib ec2 resolver read_file opened env parse_bool parse_duration flags w).1.db
  unfolding start
  start-IsOwn env parse_bool parse_duration flags w s never off started =
      (Gives-bind {P = λ _. Unit {0}} {R = IsOwn} (λ _ _. Unit {0}) (lift _) _
          (Gives-lift _ (λ d a h e. h))
          λ _.
            Gives-bind (λ cfg _. cfg.insecure_demo_mode ≡ false) (lift _) _
              (Gives-lift _ λ d cfg h e.
                (config_is_own env parse_bool parse_duration flags.config never off).yields cfg e)
              λ cfg. new_server-Gives cfg).give
        w s tt started

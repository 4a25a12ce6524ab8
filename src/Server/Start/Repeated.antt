-- ===== src/Server/Start/Repeated.antt =====
-- Starting in insecure demo mode again and again (internal/server/server.go, internal/demo/demo.go).
use attes_tam.Base.{
  ℕ, zero, suc, ◌+◌, ◌<◌, ◌≡◌, refl, sym, subst, ◌∙◌, Bool, true, not, ◌&&◌, Option, some,
  some-injective, [], Bytes, bytes_eq, length, arith,
}
use attes_tam.Model.{other, SuitManifest, Db}
use attes_tam.Exec.{Result, ok, World, pure, lift}
use attes_tam.Exec.Gives.{
  Gives, Gives-bind, Gives-if, Gives-if_some, Gives-lift, Gives-pure, Gives-raise, Gives-weaken,
}
use attes_tam.Config.{TamConfig, RaConfig, Environment, Flags}
use attes_tam.Sqlite.Manifests.{latest_of}
use attes_tam.Demo.Data.{trusted_component_hello_text}
use attes_tam.Demo.Repeated.{IsLatestOf, demo_seeded}
use attes_tam.Tam.Library.{Library, Verifier}
use attes_tam.Tam.Seed.{seed_demo_data}
use attes_tam.Server.Start.{Server, init_db, tam_of, new_server, start}

module _ {Key : Type 0} (lib : Library Key) (ec2 : Bytes → Bytes → Key)
    (resolver : RaConfig → Bytes → Result (Option (Verifier Key)))
    (read_file : Bytes → Option Bytes) where
  -- `n` starts in insecure demo mode, each of which succeeds, and each of which finds the database as
  -- the start before has left it. Their environments, flags, clocks and faults are their own.
  pub data Restarts (d : Db) : ℕ → Db → Type 0 where
    unstarted : Restarts d zero d
    started :
        {n : ℕ} {e : Db} (env : Environment) (parse_bool : Bytes → Option Bool)
        (parse_duration : Bytes → Option ℕ) (flags : Flags) (w : World) (s : Server Key)
        → Restarts d n e
        → (start lib ec2 resolver read_file (λ _. some e) env parse_bool parse_duration flags w).0
          ≡ ok s
        → s.cfg.insecure_demo_mode ≡ true
        → Restarts d
            (suc n)
            (start lib ec2 resolver read_file
              (λ _. some e)
              env
              parse_bool
              parse_duration
              flags
              w).1.db

  -- The database that is opened.
  init_db-Gives :
      (e : Db) (P : Db → Type 0) (path : Bytes)
      → P e
      → Gives (λ _. Unit {0}) (init_db lib ec2 resolver read_file (λ _. some e) path) (λ _. P)
  unfolding init_db
  init_db-Gives e P path h =
      Gives-if_some (some e) _ _
        (λ d q. record { give = λ w a _ r. subst P (some-injective e d q) h })
        (λ _. Gives-raise other)

  server_seeded :
      (e : Db) (m : SuitManifest) (n : ℕ) (cfg : TamConfig)
      → 0 < m.sequence_number
      → IsLatestOf m n e
      → Gives
          (λ _. Unit {0})
          (new_server lib ec2 resolver read_file (λ _. some e) cfg)
          (λ s d. s.cfg.insecure_demo_mode ≡ true → IsLatestOf m (n + 1) d)
  unfolding new_server
  server_seeded e m n cfg newer latest =
      Gives-if (not cfg.insecure_demo_mode && bytes_eq cfg.tam_teep_private_key_path []) _ _
        (λ _. Gives-raise other)
        λ _.
          Gives-bind (λ _ _. Unit {0}) (lift (tam_of lib ec2 resolver read_file (λ _. some e) cfg))
            _ (Gives-lift _ (λ d t h q. h))
            λ t.
              Gives-bind (λ _. IsLatestOf m n) _ _
                (init_db-Gives e (IsLatestOf m n) cfg.db_path latest)
                λ _.
                  Gives-bind (λ _ d. cfg.insecure_demo_mode ≡ true → IsLatestOf m (n + 1) d) _ _
                    (Gives-if cfg.insecure_demo_mode (seed_demo_data lib ec2) (pure tt)
                      (λ _.
                        Gives-weaken (λ _. IsLatestOf m (n + 1)) (demo_seeded lib ec2 m n newer)
                          (λ _ d h demo. h))
                      (λ off. Gives-pure tt (λ d h demo. let never = sym demo ∙ off in cc)))
                    λ _. Gives-pure (record { cfg = cfg; tam = t }) (λ d h. h)

  start_seeds :
      (e : Db) (m : SuitManifest) (n : ℕ) (env : Environment) (parse_bool : Bytes → Option Bool)
      (parse_duration : Bytes → Option ℕ) (flags : Flags)
      → 0 < m.sequence_number
      → IsLatestOf m n e
      → Gives
          (λ _. Unit {0})
          (start lib ec2 resolver read_file (λ _. some e) env parse_bool parse_duration flags)
          (λ s d. s.cfg.insecure_demo_mode ≡ true → IsLatestOf m (n + 1) d)
  unfolding start
  start_seeds e m n env parse_bool parse_duration flags newer latest =
      Gives-bind (λ _ _. Unit {0}) (lift _) _ (Gives-lift _ (λ d a h q. h))
        λ _.
          Gives-bind (λ _ _. Unit {0}) (lift _) _ (Gives-lift _ (λ d a h q. h))
            λ cfg. server_seeded e m n cfg newer latest

  -- If the latest hello.txt manifest has a number above 0, then `n` successful starts in insecure demo
  -- mode, each on the database that the one before has left, add `n` rows to the manifests, and the
  -- latest hello.txt manifest stays.
  pub Restarts-length :
      (m : SuitManifest) {d : Db} {n : ℕ} {e : Db}
      → latest_of trusted_component_hello_text d.suit_manifests.rows ≡ some m
      → 0 < m.sequence_number
      → Restarts d n e
      → (length e.suit_manifests.rows ≡ length d.suit_manifests.rows + n)
        × (latest_of trusted_component_hello_text e.suit_manifests.rows ≡ some m)
  Restarts-length m latest newer unstarted = (omega arith, latest)
  Restarts-length m latest newer
        (started {n} {e} env parse_bool parse_duration flags w s before run demo) =
      let (rows, still) = Restarts-length m latest newer before in
      let (now, count) =
        (start_seeds e m (length e.suit_manifests.rows) env parse_bool parse_duration flags newer
            (still, refl)).give
          w s tt run demo in
      (omega (arith, rows, count), now)

-- ===== src/Module/Saving.antt =====
-- The configuration of a module with outputs in the file (loadConfig and saveConfig of src/modules).
use mtb_daemon.Base.{ℕ, ◌<◌, ◌^◌, ◌≡◌, refl, sym, subst, true, some, ltb, arith}
use mtb_daemon.Json.{Fields, field, object, number}
use mtb_daemon.Json.Safe.{
  safe_string_at, safe_string, safe_uint_at, safe_uint, safe_object_at, safe_object,
}
use mtb_daemon.Daemon.{returned}
use mtb_daemon.Uni.{IoKind, IoModule}
use mtb_daemon.Module.Info.{base_load_config, base_save_config}
use mtb_daemon.Module.Io.{IoForm, io_load_config, io_save_config}

-- A number that fits an int is read as it was.
safe_uint_fits : (n : ℕ) → n < 2 ^ 31 → safe_uint (number n) ≡ some n
unfolding safe_uint
safe_uint_fits n h = let inside : ltb n (2 ^ 31) ≡ true = ground arith in rw inside refl

module _ {k : IoKind} where
  -- What every module writes.
  pub base_load_config-base_save_config :
      (s t : IoModule k)
      → s.kind < 2 ^ 31
      → base_load_config (base_save_config s) t
        ≡ returned (record t { name = s.name; kind = s.kind })
  unfolding base_load_config base_save_config safe_string_at safe_string safe_uint_at
  base_load_config-base_save_config s t b =
      rw (base_load_config, safe_uint_at, safe_uint_fits s.kind b) refl

  base_back :
      (s t : IoModule k) (config : Fields)
      → s.kind < 2 ^ 31
      → base_load_config (field "config" (object config) (base_save_config s)) t
        ≡ returned (record t { name = s.name; kind = s.kind })
  unfolding base_load_config base_save_config safe_string_at safe_string safe_uint_at
  base_back s t config b = rw (base_load_config, safe_uint_at, safe_uint_fits s.kind b) refl

  load_saved :
      (form : IoForm k) (s t : IoModule k) (c : k.Config)
      → s.kind < 2 ^ 31
      → form.config_of (form.config_json s.kind true c) ≡ some c
      → io_load_config form (io_save_config form (record s { config = some c })) t
        ≡ returned (record t { name = s.name; kind = s.kind; config = some c })
  unfolding io_load_config io_save_config safe_object_at safe_object base_load_config safe_string_at
      base_save_config
  load_saved form s t c b e = rw (base_back s t (form.config_json s.kind true c) b, e) refl

  -- What a module with outputs writes to the file is read back by any module of its class, with its
  -- name, its type and its configuration, where the JSON form of its class gives its configuration back.
  pub io_load_config-io_save_config :
      (form : IoForm k) (s t : IoModule k) (c : k.Config)
      → s.config ≡ some c
      → s.kind < 2 ^ 31
      → form.config_of (form.config_json s.kind true c) ≡ some c
      → io_load_config form (io_save_config form s) t
        ≡ returned (record t { name = s.name; kind = s.kind; config = s.config })
  io_load_config-io_save_config form s t c e b r =
      subst
        (λ o.
          io_load_config form (io_save_config form (record s { config = o })) t
          ≡ returned (record t { name = s.name; kind = s.kind; config = o }))
        (sym e) (load_saved form s t c b r)

  -- The type that is written.
  pub type_of-base_save_config :
      (s : IoModule k) → s.kind < 2 ^ 31 → safe_uint_at (base_save_config s) "type" ≡ some s.kind
  unfolding base_save_config safe_uint_at
  type_of-base_save_config s b = rw (safe_uint_at, safe_uint_fits s.kind b) refl

  pub type_of-io_save_config :
      (form : IoForm k) (s : IoModule k) (c : k.Config)
      → s.config ≡ some c
      → s.kind < 2 ^ 31
      → safe_uint_at (io_save_config form s) "type" ≡ some s.kind
  unfolding base_save_config safe_uint_at io_save_config
  type_of-io_save_config form s c e b =
      rw (io_save_config, e, safe_uint_at, safe_uint_fits s.kind b) refl

-- ===== src/Store/Settings/Reading.antt =====
-- A setting that is stored and read.
use hopskip.Base.{
  ◌≡◌, refl, ap, ◌∙◌, Bool, true, false, Option, none, some, if◌then◌else◌, ◌==◌, nat_eq, bytes_eq,
  pair_eq, int_eq,
}
use hopskip.Text.{Bytes}
use hopskip.Store.Rows.{row, upsert}
use hopskip.Store.Db.{ok, calm, ◌>>=◌}
use hopskip.Store.Tables.{Tables, Setting}
use hopskip.Store.Rows.Laws.{row-upsert}
use hopskip.Store.Settings.{setting_key, value_of, stored, get_setting, set_setting}

value_of-if :
    (b : Bool) (new : Setting) (value : Bytes) (o other : Option Setting)
    → new.value ≡ value
    → value_of (
        if b then some (elim o [ none ↦ new | some old ↦ record old { value = value } ]) else other)
      ≡ (if b then some value else value_of other)
value_of-if true new value none other h = ap some h
value_of-if true new value (some old) other h = refl
value_of-if false new value o other h = refl

get_setting_lem :
    (key : Bytes) (t : Tables) → get_setting key (calm t) ≡ (ok (stored key t), calm t)
unfolding get_setting ◌>>=◌
get_setting_lem key t = refl

-- With a driver that fails nothing, a setting that is stored is read back under its key, in place of
-- any older value, and every other key reads as before.
pub set_setting-get_setting :
    (key value : Bytes) (t : Tables)
    → (u : Tables) × (set_setting key value (calm t) ≡ (ok tt, calm u))
      × ((k : Bytes)
          → get_setting k (calm u) ≡ (ok (if k == key then some value else stored k t), calm u))
unfolding set_setting ◌>>=◌
set_setting-get_setting key value t =
    let new : Setting = record { key = key; value = value } in
    let u : Tables = record t {
      app_settings = upsert setting_key key (λ s. record s { value = value }) new t.app_settings;
    } in
    (
      u,
      refl,
      λ k.
          get_setting_lem k u
          ∙ ap (λ o. (ok o, calm u))
              (ap value_of (
                  row-upsert setting_key (λ s. record s { value = value }) (λ s. refl) k key new
                    t.app_settings refl)
                ∙ value_of-if (k == key) new value (row setting_key key t.app_settings)
                    (row setting_key k t.app_settings) refl),
    )

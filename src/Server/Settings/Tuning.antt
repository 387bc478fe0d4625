-- ===== src/Server/Settings/Tuning.antt =====
-- A budget that an operator sets, and the budget in effect after it.
use hopskip.Base.{
  ℕ, ◌≡◌, refl, ap, ◌∙◌, Bool, true, false, Option, none, some, [], find, arith, ◌==◌, eq_refl,
  nat_eq, bytes_eq, bytes_beq, pair_eq, int_eq, ℤ, pos, negsuc,
}
use hopskip.Text.{Bytes}
use hopskip.Text.Trim.{trim_space}
use hopskip.Store.Tables.{Tables, Setting}
use hopskip.Store.Rows.{row, upsert}
use hopskip.Store.Rows.Laws.{row-upsert}
use hopskip.Base.{bytes_beq_iff}
use hopskip.Store.Db.{
  ok, M, calm, exec, catch, caught, query, settle, strike, continue, ◌>>=◌, pure,
}
use hopskip.Store.Settings.{setting_key, value_of, stored, get_setting, set_setting}
use hopskip.Agent.Limits.{
  atoi, max_steps, max_retries, steps_of, default_max_steps, default_max_retries,
}
use hopskip.Agent.Operator.{
  current_max_steps, current_max_retries, max_steps_setting, max_retries_setting,
}
use hopskip.Server.Api.{Reply, Body}
use hopskip.Server.Settings.{
  SettingDef, not_positive, not_whole, at_least, number_from, set_value, set_known, store_setting,
  setting_defs, has_setting_key, max_steps_def, max_retries_def, handle_set_setting,
}

abbrev accepted_reply : Reply
accepted_reply = record { code = 200; body = Body.confirmed }

abbrev refused_reply : Bytes → Reply
refused_reply text = record { code = 400; body = Body.refusal text }

-- The tables with a value for the key.
abbrev with_setting : Bytes → Bytes → Tables → Tables
with_setting key v t = record t {
  app_settings =
      upsert setting_key key (λ s. record s { value = v }) (record { key = key; value = v })
        t.app_settings;
}

value_of-if :
    (o : Option Setting) (key v : Bytes)
    → value_of (
        some
          (elim o [ none ↦ record { key = key; value = v } | some old ↦ record old { value = v } ]))
      ≡ some v
value_of-if none key v = refl
value_of-if (some old) key v = refl

stored-with_setting : (key v : Bytes) (t : Tables) → stored key (with_setting key v t) ≡ some v
stored-with_setting key v t =
    ap value_of (
      row-upsert setting_key (λ s. record s { value = v }) (λ s. refl) key key
        (record { key = key; value = v }) t.app_settings refl)
    ∙ rw (eq_refl key) (value_of-if (row setting_key key t.app_settings) key v)

-- What the request leaves: a number in effect, or a refusal and the tables as they were.
module _ (key : Bytes) (current : M ℕ) (text : Bytes) (default : ℕ) where
  abbrev PutsInEffect : Bytes → Tables → ℕ → Type 0
  PutsInEffect value t n =
      (u : Tables) × (handle_set_setting key (some value) (calm t) ≡ (ok accepted_reply, calm u))
      × (current (calm u) ≡ (ok n, calm u))

  -- `blank` where the value is blank; the number is the one that is read, where it is allowed.
  abbrev pub Tunes : (value : Bytes) → Tables → (blank : Bool) → Option ℕ → Type 0
  Tunes value t true o = PutsInEffect value t default
  Tunes value t false none =
      handle_set_setting key (some value) (calm t) ≡ (ok (refused_reply text), calm t)
  Tunes value t false (some n) = PutsInEffect value t n

module _ (key text : Bytes) (bound default : ℕ) (d : SettingDef) (of : Option Bytes → ℕ)
    (known : find (has_setting_key key) setting_defs ≡ some d)
    (rule : (v : Bytes) → d.refusal v ≡ number_from bound text v) (blank : of (some []) ≡ default)
    (reads : (v : Bytes) (n : ℕ) → at_least bound (atoi v) ≡ some n → of (some v) ≡ n) where
  current : M ℕ
  current = get_setting key >>= λ found. pure (of found)

  stored_reply :
      (v : Bytes) (t : Tables)
      → store_setting key v (calm t) ≡ (ok accepted_reply, calm (with_setting key v t))
  unfolding set_setting ◌>>=◌ catch caught exec strike settle continue pure
  stored_reply v t = refl

  reads_back :
      (v : Bytes) (t : Tables)
      → current (calm (with_setting key v t)) ≡ (ok (of (some v)), calm (with_setting key v t))
  unfolding current get_setting ◌>>=◌ catch caught query exec strike settle continue pure
  reads_back v t = ap (λ o. (ok (of o), calm (with_setting key v t))) (stored-with_setting key v t)

  requested :
      (value : Bytes) → handle_set_setting key (some value) ≡ set_value key d (trim_space value)
  unfolding handle_set_setting
  requested value = ap (λ o. set_known key o (some value)) known

  tuned-as :
      (value : Bytes) (t : Tables) (b : Bool) (o : Option ℕ)
      → (trim_space value == []) ≡ b
      → at_least bound (atoi (trim_space value)) ≡ o
      → Tunes key current text default value t b o
  tuned-as value t true o b e = (
    with_setting key (trim_space value) t,
    rw (requested value, b) (stored_reply (trim_space value) t),
    reads_back (trim_space value) t ∙ rw ((bytes_beq_iff (trim_space value) []).0 b, blank) refl,
  )
  tuned-as value t false none b e =
      rw (requested value, b, rule (trim_space value), e) (unfold pure in refl)
  tuned-as value t false (some n) b e = (
    with_setting key (trim_space value) t,
    rw (requested value, b, rule (trim_space value), e) (stored_reply (trim_space value) t),
    reads_back (trim_space value) t ∙ rw (reads (trim_space value) n e) refl,
  )

steps_known : find (has_setting_key max_steps_setting) setting_defs ≡ some max_steps_def
unfolding find setting_defs bytes_beq
steps_known = refl

retries_known : find (has_setting_key max_retries_setting) setting_defs ≡ some max_retries_def
unfolding find setting_defs bytes_beq
retries_known = refl

steps_read : (o : Option ℤ) (n : ℕ) → at_least 1 o ≡ some n → steps_of o ≡ n
steps_read none n h = absurd (cc)
steps_read (some (negsuc k)) n h = absurd (cc)
steps_read (some (pos k)) n h = ground (arith, h)

retries_of : Option ℤ → ℕ
retries_of o = elim o [
  | none ↦ default_max_retries
  | some (pos n) ↦ n
  | some (negsuc n) ↦ default_max_retries
]

retries_read : (o : Option ℤ) (n : ℕ) → at_least 0 o ≡ some n → retries_of o ≡ n
unfolding retries_of
retries_read none n h = absurd (cc)
retries_read (some (negsuc k)) n h = absurd (cc)
retries_read (some (pos k)) n h = ground (arith, h)

-- With a driver that fails nothing, a new value of "max_steps" or "max_retries", with white space at
-- its ends removed, is in effect at once: where it is blank, the default; where it is a number
-- from 1, or from 0, that number; and anything else is refused, with every row as it was.
pub handle_set_setting-Tunes :
    (value : Bytes) (t : Tables)
    → let v = trim_space value in
      Tunes max_steps_setting current_max_steps not_positive default_max_steps value t
        (v == [])
        (at_least 1 (atoi v))
      × Tunes max_retries_setting current_max_retries not_whole default_max_retries value t
          (v == [])
          (at_least 0 (atoi v))
unfolding current_max_steps current_max_retries current max_steps max_retries atoi retries_of
handle_set_setting-Tunes value t =
    let v = trim_space value in
    (
      tuned-as max_steps_setting not_positive 1 default_max_steps max_steps_def max_steps
          steps_known (λ w. refl) refl (λ w n h. steps_read (atoi w) n h) value t (v == [])
          (at_least 1 (atoi v)) refl refl,
      tuned-as max_retries_setting not_whole 0 default_max_retries max_retries_def max_retries
          retries_known (λ w. refl) refl (λ w n h. retries_read (atoi w) n h) value t (v == [])
          (at_least 0 (atoi v)) refl refl,
    )

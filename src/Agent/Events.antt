-- ===== src/Agent/Events.antt =====
-- internal/agent/agent.go, openai.go and tools.go: what a run streams to the browser, and the texts.
pub mod Clip
use hopskip.Base.{
  ℕ, zero, suc, Bool, false, ◌||◌, List, [], ◌∷◌, ◌++◌, ltb, leb, if◌then◌else◌, nat_eq, bytes_eq,
  pair_eq, int_eq, length, take, drop,
}
use hopskip.Text.{Bytes, codes}
use hopskip.Text.{ellipsis}
use hopskip.Text.Search.{contains, to_lower}

-- One event, by its kind.
pub data Event : Type 0 where
  thinking done : Event
  token tool_use tool_result notice error : Bytes → Event
  -- input and output tokens
  usage : ℕ → ℕ → Event

-- `utf8.RuneStart`
abbrev pub is_rune_start : ℕ → Bool
is_rune_start c = ltb c 0x80 || leb 0xc0 c

-- The last place at or before n where a character of the text begins, or 0.
unfoldable pub rune_boundary : Bytes → ℕ → ℕ
rune_boundary s zero = 0
rune_boundary s (suc n) =
    let before = rune_boundary s n in
    let starts : Bool = elim (drop (suc n) s) [ [] ↦ false | c ∷ _ ↦ is_rune_start c ] in
    if starts then suc n else before

unfoldable pub clip : Bytes → ℕ → Bytes
unfolding rune_boundary
clip s n = if leb (length s) n then s else take (rune_boundary s n) s ++ ellipsis

abbrev pub tool_result_display_limit : ℕ
tool_result_display_limit = 6000

-- The text put before the error of a provider that limits the rate.
abbrev pub rate_limit_text : Bytes
rate_limit_text =
    0xe2
      ∷ 0x8f
      ∷ 0xb3
      ∷ codes
          " Provider rate limit (429) after automatic retries. Wait a moment and resend, or raise "
    ++ (0xe2 ∷ 0x80 ∷ 0x9c ∷ codes "max_retries")
    ++ (0xe2 ∷ 0x80 ∷ 0x9d ∷ codes " in Settings ")
    ++ (0xe2 ∷ 0x86 ∷ 0x92 ∷ codes " General.\n")

unfoldable pub friendly_err : Bytes → Bytes
friendly_err s =
    let ls = to_lower s in
    if contains ls (codes "429")
      || contains ls (codes "rate limit")
      || contains ls (codes "rate_limit")
    then rate_limit_text ++ s
    else s

unfoldable pub is_not_chat_model_err : Bytes → Bool
is_not_chat_model_err err =
    let s = to_lower err in
    contains s (codes "not a chat model")
    || contains s (codes "v1/responses")
    || contains s (codes "v1/completions")

abbrev pub stopped_text : Bytes
stopped_text = 0xe2 ∷ 0x8f ∷ 0xb9 ∷ codes " Stopped."

-- The end of a run whose call of the provider failed: `stopped` where the operator stopped it.
abbrev pub failure : Bool → Bytes → List Event
failure stopped err =
    (if stopped then notice stopped_text else error (friendly_err err)) ∷ done ∷ []

-- ===== src/Store/Web/Paths.antt =====
-- What `NormalizeWebPath` accepts and what it returns.
use hopskip.Base.{
  ℕ, ◌≡◌, refl, ◌∙◌, ◌≢◌, inl, inr, Bool, true, false, not, ◌&&◌, ◌||◌, Option, none, some, List,
  [], ◌∷◌, arith, Bool-cases, ◌==◌, nat_eq, bytes_eq, bytes_beq, bytes_beq_iff, pair_eq, int_eq,
  any, all, All,
}
use hopskip.Text.{Bytes}
use hopskip.Base.{All-append, All-mono}
use hopskip.Text.{replace}
use hopskip.Text.Trim.{trim_space, trim_left, drop_while}
use hopskip.Text.Parts.{split, join, Lacks, split-Lacks, split-All, split-join, separated}
use hopskip.Store.Rows.Laws.{is_some}
use hopskip.Store.Web.{slash, dot_dot, clean_segments, joined, normalize_web_path}

abbrev pub backslash : ℕ
backslash = b'\\'

abbrev pub dot : Bytes
dot = b'.' ∷ []

-- A segment of a storage key.
pub record IsSegment (seg : Bytes) : Type 0 where
  pub filled : seg ≢ []
  pub not_dot : seg ≢ dot
  pub not_dot_dot : seg ≢ dot_dot
  pub no_slash : Lacks slash seg
  pub no_backslash : Lacks backslash seg

abbrev pub IsKey : Bytes → Type 0
IsKey n =
    (seg : Bytes) × (segs : List Bytes) × IsSegment seg
    × All IsSegment segs
    × (n ≡ join (slash ∷ []) (seg ∷ segs))

pub replace-Lacks : (s : Bytes) → Lacks backslash (replace backslash slash s)
unfolding replace
replace-Lacks [] = tt
replace-Lacks (c ∷ s) = (ground arith, replace-Lacks s)

pub drop_while-All : (P : ℕ → Type 0) (p : ℕ → Bool) (s : Bytes) → All P s → All P (drop_while p s)
unfolding drop_while
drop_while-All P p [] _ = tt
drop_while-All P p (c ∷ s) (h, hs) = elim (Bool-cases (p c)) [
  | inl e ↦ rw e (drop_while-All P p s hs)
  | inr e ↦ rw e (h, hs)
]

-- The text whose segments are looked at.
abbrev pub stripped : Bytes → Bytes
stripped p = trim_left (λ c. c == slash) (replace backslash slash (trim_space p))

stripped-Lacks : (p : Bytes) → Lacks backslash (stripped p)
unfolding trim_left
stripped-Lacks p = drop_while-All _ _ _ (replace-Lacks (trim_space p))

abbrev Clean : Option (List Bytes) → Type 0
Clean none = Unit
Clean (some segs) = All IsSegment segs

cons-Clean :
    (seg : Bytes) (o : Option (List Bytes))
    → IsSegment seg
    → Clean o
    → Clean (elim o [ none ↦ none | some out ↦ some (seg ∷ out) ])
cons-Clean seg none s h = tt
cons-Clean seg (some out) s h = (s, h)

clean_segments-Clean :
    (segs : List Bytes)
    → All (Lacks slash) segs
    → All (Lacks backslash) segs
    → Clean (clean_segments segs)
unfolding clean_segments
clean_segments-Clean [] _ _ = tt
clean_segments-Clean (seg ∷ segs) (s, ss) (b, bs) = elim (Bool-cases (seg == [] || seg == dot)) [
  | inl e ↦ rw e (clean_segments-Clean segs ss bs)
  | inr e ↦ elim (Bool-cases (seg == dot_dot)) [
    | inl d ↦ rw (e, d) tt
    | inr d ↦
        rw (e, d)
          (cons-Clean seg (clean_segments segs)
            (record {
              filled = ground (arith, bytes_beq_iff seg []);
              not_dot = ground (arith, bytes_beq_iff seg dot);
              not_dot_dot = ground (arith, bytes_beq_iff seg dot_dot);
              no_slash = s;
              no_backslash = b;
            })
            (clean_segments-Clean segs ss bs))
  ]
]

joined-IsKey : (o : Option (List Bytes)) {n : Bytes} → Clean o → joined o ≡ some n → IsKey n
unfolding joined
joined-IsKey none h e = absurd (cc)
joined-IsKey (some []) h e = absurd (cc)
joined-IsKey (some (seg ∷ segs)) (s, ss) e = (seg, segs, s, ss, ground arith)

-- A path that is accepted becomes segments joined by single slashes: at least one, none of them
-- empty, "." or "..", and none with a slash or a backslash.
pub normalize_web_path-IsKey : (p : Bytes) {n : Bytes} → normalize_web_path p ≡ some n → IsKey n
unfolding normalize_web_path
normalize_web_path-IsKey p {n} h = elim (Bool-cases (stripped p == [])) [
  | inl e ↦ absurd (ground arith)
  | inr e ↦
      joined-IsKey (clean_segments (split slash (stripped p)))
        (clean_segments-Clean _ (split-Lacks slash (stripped p))
          (split-All _ slash (stripped p) (stripped-Lacks p)))
        (ground arith)
]

clean_segments-IsSegment :
    (segs : List Bytes) → All IsSegment segs → clean_segments segs ≡ some segs
unfolding clean_segments
clean_segments-IsSegment [] _ = refl
clean_segments-IsSegment (seg ∷ segs) (s, ss) = ground (
  arith,
  clean_segments-IsSegment segs ss,
  bytes_beq_iff seg [],
  bytes_beq_iff seg dot,
  bytes_beq_iff seg dot_dot,
)

replace_none : (s : Bytes) → Lacks backslash s → replace backslash slash s ≡ s
unfolding replace
replace_none [] _ = refl
replace_none (c ∷ s) (h, hs) = ground (arith, replace_none s hs)

separated-Lacks :
    (segs : List Bytes) → All IsSegment segs → Lacks backslash (separated (slash ∷ []) segs)
unfolding separated
separated-Lacks [] _ = tt
separated-Lacks (seg ∷ segs) (s, ss) =
    (omega arith, All-append _ seg _ s.no_backslash (separated-Lacks segs ss))

join-Lacks :
    (seg : Bytes) (segs : List Bytes)
    → IsSegment seg
    → All IsSegment segs
    → Lacks backslash (join (slash ∷ []) (seg ∷ segs))
unfolding join
join-Lacks seg segs s ss = All-append _ seg _ s.no_backslash (separated-Lacks segs ss)

-- A key begins with a byte that is no slash.
trim_left-join :
    (seg : Bytes) (segs : List Bytes)
    → IsSegment seg
    → trim_left (λ c. c == slash) (join (slash ∷ []) (seg ∷ segs)) ≡ join (slash ∷ []) (seg ∷ segs)
unfolding trim_left drop_while join
trim_left-join [] segs s = absurd (s.filled refl)
trim_left-join (c ∷ seg) segs s = ground (arith, s.no_slash)

join-ne-nil :
    (seg : Bytes) (segs : List Bytes) → IsSegment seg → join (slash ∷ []) (seg ∷ segs) ≢ []
unfolding join
join-ne-nil [] segs s = absurd (s.filled refl)
join-ne-nil (c ∷ seg) segs s = cc

normalize-stripped :
    (p n : Bytes)
    → stripped p ≡ n
    → n ≢ []
    → normalize_web_path p ≡ joined (clean_segments (split slash n))
unfolding normalize_web_path
normalize-stripped p n e h = rw e (ground (arith, bytes_beq_iff n []))

-- A key that white space neither begins nor ends is its own key.
pub normalize_web_path_fixed :
    (n : Bytes) → IsKey n → trim_space n ≡ n → normalize_web_path n ≡ some n
normalize_web_path_fixed n (seg, segs, s, ss, e) trimmed =
    normalize-stripped n (join (slash ∷ []) (seg ∷ segs)) same (join-ne-nil seg segs s)
    ∙ rw
        (
          split-join slash seg segs s.no_slash (All-mono (λ x h. h.no_slash) segs ss),
          clean_segments-IsSegment (seg ∷ segs) (s, ss),
          e,
        )
        (unfold joined in refl)
  where
    same : stripped n ≡ join (slash ∷ []) (seg ∷ segs)
    same = rw (trimmed, e, replace_none _ (join-Lacks seg segs s ss), trim_left-join seg segs s)

abbrev pub is_dot_dot : Bytes → Bool
is_dot_dot seg = seg == dot_dot

-- The loop over the segments passes these over.
abbrev pub is_skipped : Bytes → Bool
is_skipped seg = seg == [] || seg == dot

abbrev holds_any : Option (List Bytes) → Bool
holds_any none = false
holds_any (some []) = false
holds_any (some (seg ∷ segs)) = true

is_some-clean : (segs : List Bytes) → is_some (clean_segments segs) ≡ not (any is_dot_dot segs)
unfolding clean_segments any
is_some-clean [] = refl
is_some-clean (seg ∷ segs) = ground (
  arith,
  is_some-clean segs,
  bytes_beq_iff seg [],
  bytes_beq_iff seg dot,
  bytes_beq_iff seg dot_dot,
)

holds_any-clean :
    (segs : List Bytes)
    → holds_any (clean_segments segs) ≡ (not (any is_dot_dot segs) && not (all is_skipped segs))
unfolding clean_segments any all
holds_any-clean [] = refl
holds_any-clean (seg ∷ segs) = ground (
  arith,
  is_some-clean segs,
  holds_any-clean segs,
  bytes_beq_iff seg [],
  bytes_beq_iff seg dot,
  bytes_beq_iff seg dot_dot,
)

is_some-joined : (o : Option (List Bytes)) → is_some (joined o) ≡ holds_any o
unfolding joined
is_some-joined o = ground arith

-- The path is accepted exactly when, after white space and slashes at its ends are gone and
-- backslashes are slashes, no segment is ".." and some segment is neither empty nor ".".
pub is_some-normalize_web_path :
    (p : Bytes)
    → is_some (normalize_web_path p) ≡ (
        not (any is_dot_dot (split slash (stripped p)))
        && not (all is_skipped (split slash (stripped p))))
unfolding normalize_web_path
is_some-normalize_web_path p = elim (Bool-cases (stripped p == [])) [
  | inl e ↦ rw ((bytes_beq_iff (stripped p) []).0 e) (unfold split any all bytes_beq in refl)
  | inr e ↦ rw e (is_some-joined _ ∙ holds_any-clean _)
]

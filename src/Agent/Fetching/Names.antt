-- ===== src/Agent/Fetching/Names.antt =====
-- The names of the files that downloads are saved as.
use mathlib.Core.List.{reverse}
use hopskip.Base.{
  ℕ, ◌≡◌, ◌≢◌, ◌⊎◌, refl, inl, inr, Bool, ◌||◌, List, [], ◌∷◌, All, All-reverse, bytes_beq, arith,
  if◌then◌else◌, Bool-cases, ◌==◌, nat_eq, bytes_eq, bytes_beq_iff, pair_eq, int_eq,
}
use hopskip.Text.{Bytes}
use hopskip.Text.{replace}
use hopskip.Text.Trim.{trim_right, drop_while}
use hopskip.Text.Parts.{split, Lacks, split-Lacks, split-All}
use hopskip.Store.Web.{dot_dot}
use hopskip.Store.Web.Paths.{backslash, dot, IsSegment, drop_while-All, replace-Lacks}
use hopskip.Agent.Fetching.FileNames.{slash, download, last_part, path_base, safe_name}

trim_right-All : (P : ℕ → Type 0) (p : ℕ → Bool) (s : Bytes) → All P s → All P (trim_right p s)
unfolding trim_right
trim_right-All P p s h =
    All-reverse P (drop_while p (reverse s)) (drop_while-All P p (reverse s) (All-reverse P s h))

last_part-All : (P : Bytes → Type 0) (ps : List Bytes) → P [] → All P ps → P (last_part ps)
last_part-All P [] z _ = z
last_part-All P (p ∷ []) z (h, _) = h
last_part-All P (p ∷ q ∷ ps) z (_, hs) = last_part-All P (q ∷ ps) z hs

-- Blanks become underscores, which no segment needs to lack.
unblanked-Lacks : (b : ℕ) (s : Bytes) → b'_' ≢ b → Lacks b s → Lacks b (replace b' ' b'_' s)
unfolding replace
unblanked-Lacks b [] h _ = tt
unblanked-Lacks b (c ∷ s) h (k, ks) = (ground (arith, h, k), unblanked-Lacks b s h ks)

-- The base of a path: one segment without slashes, or the root.
abbrev IsBase : Bytes → Type 0
IsBase b = (Lacks slash b × Lacks backslash b) ⊎ (b ≡ slash ∷ [])

path_base-IsBase : (s : Bytes) → Lacks backslash s → IsBase (path_base s)
unfolding path_base
path_base-IsBase s h =
    let stripped = trim_right (λ c. c == slash) s in
    let base = last_part (split slash stripped) in
    elim (Bool-cases (s == [])) [
      | inl e ↦ rw e (inl (ground arith, ground arith))
      | inr e ↦ elim (Bool-cases (base == [])) [
        | inl d ↦ rw (e, d) (inr refl)
        | inr d ↦
            rw (e, d)
              (inl (
                last_part-All (Lacks slash) (split slash stripped) tt (split-Lacks slash stripped),
                last_part-All (Lacks backslash) (split slash stripped) tt
                    (split-All _ slash stripped (trim_right-All _ _ s h)),
              ))
      ]
    ]

-- A name of one segment, or the directory itself.
abbrev pub IsFileName : Bytes → Type 0
IsFileName n = IsSegment n ⊎ (n ≡ slash ∷ [])

download-IsSegment : IsSegment download
download-IsSegment = record {
  filled = cc;
  not_dot = cc;
  not_dot_dot = cc;
  no_slash = ground arith;
  no_backslash = ground arith;
}

named-IsFileName :
    (b : Bytes)
    → IsBase b
    → IsFileName (
        let base = replace b' ' b'_' b in
        if base == [] || base == dot || base == dot_dot then download else base)
unfolding bytes_beq
named-IsFileName b (inr e) = rw e (inr (unfold replace in refl))
named-IsFileName b (inl (s, k)) =
    let base = replace b' ' b'_' b in
    elim (Bool-cases (base == [] || base == dot || base == dot_dot)) [
      | inl e ↦ rw e (inl download-IsSegment)
      | inr e ↦ rw e (
          inl (record {
            filled = ground (arith, bytes_beq_iff base []);
            not_dot = ground (arith, bytes_beq_iff base dot);
            not_dot_dot = ground (arith, bytes_beq_iff base dot_dot);
            no_slash = unblanked-Lacks slash b (omega arith) s;
            no_backslash = unblanked-Lacks backslash b (omega arith) k;
          }))
    ]

pub safe_name-IsFileName : (name : Bytes) → IsFileName (safe_name name)
unfolding safe_name
safe_name-IsFileName name =
    named-IsFileName (path_base (replace backslash slash name))
      (path_base-IsBase (replace backslash slash name) (replace-Lacks name))

-- ===== src/Server/Static/Names.antt =====
-- The names under which files are looked up.
use mathlib.Core.List.{reverse, reverse-cons}
use hopskip.Base.{
  ◌≡◌, ◌≢◌, refl, ap, sym, ◌∙◌, ◌||◌, List, [], ◌∷◌, ◌++◌, append_assoc, append-nil, All,
  All-reverse, All-mono, arith, Bool-cases, inl, inr, ◌==◌, nat_eq, bytes_eq, bytes_beq_iff,
  pair_eq, int_eq,
}
use hopskip.Text.{Bytes}
use hopskip.Text.Parts.{split, join, Lacks, split-Lacks, split-join, separated}
use hopskip.Store.Web.{slash, dot_dot}
use hopskip.Store.Web.Paths.{dot, IsSegment, IsKey}
use hopskip.Server.Static.{popped, pushed, clean_onto, index_html, name_of, web_name}

-- A segment that stays below its directory.
pub record IsPart (seg : Bytes) : Type 0 where
  pub filled : seg ≢ []
  pub not_dot : seg ≢ dot
  pub not_dot_dot : seg ≢ dot_dot
  pub no_slash : Lacks slash seg

-- Segments joined by single slashes, at least one.
abbrev pub IsName : Bytes → Type 0
IsName n =
    (seg : Bytes) × (segs : List Bytes) × IsPart seg
    × All IsPart segs
    × (n ≡ join (slash ∷ []) (seg ∷ segs))

pub IsKey-IsName : {n : Bytes} → IsKey n → IsName n
IsKey-IsName (seg, segs, s, ss, e) = (seg, segs, part s, All-mono (λ x h. part h) segs ss, e)
  where
    part : {x : Bytes} → IsSegment x → IsPart x
    part h = record {
      filled = h.filled;
      not_dot = h.not_dot;
      not_dot_dot = h.not_dot_dot;
      no_slash = h.no_slash;
    }

popped-IsPart : (stack : List Bytes) → All IsPart stack → All IsPart (popped stack)
popped-IsPart [] _ = tt
popped-IsPart (seg ∷ stack) (h, hs) = hs

pushed-IsPart :
    (seg : Bytes) (stack : List Bytes)
    → Lacks slash seg
    → All IsPart stack
    → All IsPart (pushed seg stack)
pushed-IsPart seg stack lacks h = elim (Bool-cases (seg == [] || seg == dot)) [
  | inl e ↦ rw e h
  | inr e ↦ elim (Bool-cases (seg == dot_dot)) [
    | inl d ↦ rw (e, d) (popped-IsPart stack h)
    | inr d ↦
        rw (e, d)
          (
            record {
              filled = ground (arith, bytes_beq_iff seg []);
              not_dot = ground (arith, bytes_beq_iff seg dot);
              not_dot_dot = ground (arith, bytes_beq_iff seg dot_dot);
              no_slash = lacks;
            },
            h,
          )
  ]
]

clean_onto-IsPart :
    (stack segs : List Bytes)
    → All IsPart stack
    → All (Lacks slash) segs
    → All IsPart (clean_onto stack segs)
unfolding clean_onto
clean_onto-IsPart stack [] h _ = All-reverse IsPart stack h
clean_onto-IsPart stack (seg ∷ segs) h (l, ls) =
    clean_onto-IsPart (pushed seg stack) segs (pushed-IsPart seg stack l h) ls

index_html-IsPart : IsPart index_html
index_html-IsPart = record { filled = cc; not_dot = cc; not_dot_dot = cc; no_slash = ground arith }

name_of-IsName : (segs : List Bytes) → All IsPart segs → IsName (name_of segs)
name_of-IsName [] _ = (index_html, [], index_html-IsPart, tt, unfold join separated in refl)
name_of-IsName (seg ∷ segs) (h, hs) = (seg, segs, h, hs, refl)

pub web_name-IsName : (path : Bytes) → IsName (web_name path)
unfolding web_name
web_name-IsName path =
    name_of-IsName (clean_onto [] (split slash path))
      (clean_onto-IsPart [] (split slash path) tt (split-Lacks slash path))

pushed_part : (seg : Bytes) (stack : List Bytes) → IsPart seg → pushed seg stack ≡ seg ∷ stack
pushed_part seg stack h = ground (
  arith,
  bytes_beq_iff seg [],
  bytes_beq_iff seg dot,
  bytes_beq_iff seg dot_dot,
  h.filled,
  h.not_dot,
  h.not_dot_dot,
)

clean_onto-append :
    (stack segs : List Bytes) → All IsPart segs → clean_onto stack segs ≡ reverse stack ++ segs
unfolding clean_onto
clean_onto-append stack [] _ = sym (append-nil (reverse stack))
clean_onto-append stack (seg ∷ segs) (h, hs) = rw (pushed_part seg stack h) (
    clean_onto-append (seg ∷ stack) segs hs
    ∙ ap (λ l. l ++ segs) (reverse-cons seg stack)
    ∙ append_assoc (reverse stack) (seg ∷ []) segs)

-- A clean name is looked up as it stands.
pub web_name_fixed : (n : Bytes) → IsName n → web_name n ≡ n
unfolding web_name
web_name_fixed n (seg, segs, h, hs, e) =
    rw (e, split-join slash seg segs h.no_slash (All-mono (λ x k. k.no_slash) segs hs))
      (ap name_of (clean_onto-append [] (seg ∷ segs) (h, hs)))

-- Whatever path a browser asks for, the name under which a file is looked up in each layer is made of
-- segments joined by single slashes, at least one, none of them empty, "." or "..", so that it never
-- leaves the directory; and a name of that form is looked up as it stands.
pub web_name_lem : (path : Bytes) → IsName (web_name path) × (IsName path → web_name path ≡ path)
web_name_lem path = (web_name-IsName path, web_name_fixed path)

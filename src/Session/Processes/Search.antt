-- ===== src/Session/Processes/Search.antt =====
-- What the search for ssh answers.
use hopskip.Base.{
  ℕ, zero, suc, ◌+◌, ◌≤◌, ◌≡◌, refl, sym, ◌≢◌, ◌⊎◌, inl, inr, Bool, true, false, Option, some, List,
  [], ◌∷◌, map, arith, Bool-cases, ◌==◌, eq_refl, nat_eq, bytes_eq, pair_eq, ℤ, int_eq, int_beq_iff,
  length, keep, any, All,
}
use hopskip.Session.Processes.{
  Process, member, process_id, children, is_ssh, scan, search, ssh_in_ps_output,
}
use hopskip.Session.Processes.Scan.{unseen, IsPlain, Scanned, scan-Scanned, scan-is_ssh}

-- The processes under a root, by the parents that the lines name.
pub data Under (rows : List Process) (root : ℤ) : ℤ → Type 0 where
  start : Under rows root root
  child :
      {p : ℤ} (c : ℤ) → Under rows root p → member c (children rows p) ≡ true → Under rows root c

member-children :
    (p c : ℤ) (rs : List Process)
    → member c (map process_id (keep (λ r. r.ppid == p) rs)) ≡ true
    → member c (map process_id rs) ≡ true
unfolding keep any
member-children p c [] h = h
member-children p c (r ∷ rs) h = ground (arith, h, member-children p c rs)

module _ (rows : List Process) (root : ℤ) where
  -- Between two rounds: who is seen is queued or has all its children seen.
  pub record IsSearch (queue seen : List ℤ) : Type 0 where
    pub rooted : member root seen ≡ true
    pub plain : All (IsPlain rows root) seen
    pub settled :
        (x : ℤ)
        → member x seen ≡ true
        → (member x queue ≡ true)
          ⊎ ((c : ℤ) → member c (children rows x) ≡ true → member c seen ≡ true)
    pub under : (x : ℤ) → member x queue ≡ true → Under rows root x

  IsPlain-at :
      (x : ℤ) (seen : List ℤ)
      → All (IsPlain rows root) seen
      → member x seen ≡ true
      → IsPlain rows root x
  unfolding any
  IsPlain-at x [] v h = absurd (cc h)
  IsPlain-at x (y ∷ seen) (v, vs) h = elim (Bool-cases (y == x)) [
    | inl e ↦ rw⁻¹ ((int_beq_iff y x).0 e) v
    | inr e ↦ IsPlain-at x seen vs (ground (arith, h, e))
  ]

  all_seen : (seen : List ℤ) → IsSearch [] seen → (x : ℤ) → Under rows root x → member x seen ≡ true
  unfolding any
  all_seen seen v x start = v.rooted
  all_seen seen v x (child {p} c u k) = elim (v.settled p (all_seen seen v p u)) [
    | inl h ↦ absurd (cc h)
    | inr h ↦ h c k
  ]

  next-IsSearch :
      (p : ℤ) (queue seen queue1 seen1 : List ℤ)
      → IsSearch (p ∷ queue) seen
      → Scanned rows (children rows p) queue seen queue1 seen1
      → IsSearch queue1 seen1
  unfolding any
  next-IsSearch p queue seen queue1 seen1 v s = record {
    rooted = s.keeps root v.rooted;
    plain = s.plain root v.plain;
    settled = λ x k. elim (s.queued x k) [
      | inr q ↦ inl q
      | inl old ↦ elim (v.settled x old) [
        | inr h ↦ inr (λ c m. s.keeps c (h c m))
        | inl q ↦ elim (Bool-cases (p == x)) [
          | inl e ↦ inr (λ c m. s.covers c (rw (sym ((int_beq_iff p x).0 e)) at m))
          | inr e ↦ inl (s.stays x (ground (arith, q, e)))
        ]
      ]
    ];
    under = λ x k. elim (s.origin x k) [
      | inl q ↦ v.under x (ground (arith, q))
      | inr m ↦ child x (v.under p (ground (arith, eq_refl p))) m
    ];
  }

  -- What the search answers, and that it does.
  abbrev pub Answers : Option Bool → Type 0
  Answers o =
      ((o ≡ some true) × ((c : ℤ) × Under rows root c × (is_ssh rows c ≡ true) × (c ≢ root)))
      ⊎ ((o ≡ some false) × ((c : ℤ) → Under rows root c → c ≢ root → is_ssh rows c ≡ false))

  nothing_left : (seen : List ℤ) → IsSearch [] seen → Answers (some false)
  nothing_left seen v = inr (
    refl,
    λ c u ne.
        ground (arith, IsPlain-at c seen v.plain (all_seen seen v c u), int_beq_iff c root, ne),
  )

  search-Answers :
      (fuel : ℕ) (queue seen : List ℤ)
      → length queue + unseen rows rows seen ≤ fuel
      → IsSearch queue seen
      → Answers (search rows fuel queue seen)
  unfolding search
  search-Answers zero [] seen h v = nothing_left seen v
  search-Answers zero (p ∷ queue) seen h v = absurd (omega (arith, h))
  search-Answers (suc fuel) [] seen h v = nothing_left seen v
  search-Answers (suc fuel) (p ∷ queue) seen h v =
      elim (Bool-cases (scan rows (children rows p) queue seen).0) [
        | inl e ↦
            let (c, k, s, n) = scan-is_ssh rows (children rows p) queue seen e in
            rw e (
              inl (
                refl,
                (
                  c,
                  child c (v.under p (unfold any in ground (arith, eq_refl p))) k,
                  s,
                  λ same. cc (n, v.rooted, same),
                ),
              ))
        | inr e ↦
            let s =
              scan-Scanned rows (children rows p) queue seen (λ c k. member-children p c rows k)
                e in
            rw e (
              search-Answers fuel _ _ (omega (arith, h, s.size))
                (next-IsSearch p queue seen _ _ v s))
      ]

  unseen-length : (seen : List ℤ) (rs : List Process) → unseen rows rs seen ≤ length rs
  unfolding keep
  unseen-length seen [] = omega arith
  unseen-length seen (r ∷ rs) = ground (arith, unseen-length seen rs)

  first-IsSearch : IsSearch (root ∷ []) (root ∷ [])
  unfolding any
  first-IsSearch = record {
    rooted = ground (arith, eq_refl root);
    plain = (ground (arith, eq_refl root), tt);
    settled = λ x k. inl k;
    under = λ x k. let same : root ≡ x = ground (arith, k, int_beq_iff root x) in rw (← same) start;
  }

  -- The search always ends, with cycles and repeated lines too: it answers `true` where a process
  -- other than the root whose command is "ssh" runs under the root by the parents that the lines
  -- name, and `false` where there is none.
  pub ssh_in_ps_output-Answers : Answers (ssh_in_ps_output rows root)
  unfolding ssh_in_ps_output
  ssh_in_ps_output-Answers =
      search-Answers (length rows + 1) (root ∷ []) (root ∷ [])
        (omega (arith, unseen-length (root ∷ []) rows)) first-IsSearch

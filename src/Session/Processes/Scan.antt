-- ===== src/Session/Processes/Scan.antt =====
-- One round of the search, over the children of a process.
use hopskip.Base.{
  ℕ, ◌+◌, ◌≤◌, ◌≡◌, refl, sym, ap, ◌∙◌, ◌⊎◌, inl, inr, true, false, not, ◌||◌, List, [], ◌∷◌, ◌++◌,
  map, arith, Bool-cases, ◌==◌, eq_refl, nat_eq, bytes_eq, pair_eq, ℤ, int_eq, int_beq_iff, length,
  keep, any, All,
}
use hopskip.Base.{length-append}
use hopskip.Session.Processes.{Process, member, process_id, is_ssh, scan}

module _ (rows : List Process) where
  -- The lines whose process is not seen yet.
  abbrev pub unseen : List Process → List ℤ → ℕ
  unseen rs seen = length (keep (λ r. not (member r.pid seen)) rs)

  unseen-le : (c : ℤ) (seen : List ℤ) (rs : List Process) → unseen rs (c ∷ seen) ≤ unseen rs seen
  unfolding keep any
  unseen-le c seen [] = omega arith
  unseen-le c seen (r ∷ rs) = ground (arith, unseen-le c seen rs)

  unseen-lt :
      (c : ℤ) (seen : List ℤ) (rs : List Process)
      → member c seen ≡ false
      → member c (map process_id rs) ≡ true
      → unseen rs (c ∷ seen) + 1 ≤ unseen rs seen
  unfolding keep any
  unseen-lt c seen [] h k = absurd (cc k)
  unseen-lt c seen (r ∷ rs) h k =
      ground
        (arith, unseen-lt c seen rs, unseen-le c seen rs, int_beq_iff r.pid c, int_beq_iff c r.pid)

  abbrev pub IsPlain : ℤ → ℤ → Type 0
  IsPlain root x = ((x == root) || not (is_ssh rows x)) ≡ true

  -- What a round without ssh does to the queue and to what is seen.
  pub record Scanned (cs queue seen queue1 seen1 : List ℤ) : Type 0 where
    pub keeps : (x : ℤ) → member x seen ≡ true → member x seen1 ≡ true
    pub stays : (x : ℤ) → member x queue ≡ true → member x queue1 ≡ true
    pub queued : (x : ℤ) → member x seen1 ≡ true → (member x seen ≡ true) ⊎ (member x queue1 ≡ true)
    pub origin : (x : ℤ) → member x queue1 ≡ true → (member x queue ≡ true) ⊎ (member x cs ≡ true)
    pub covers : (c : ℤ) → member c cs ≡ true → member c seen1 ≡ true
    pub plain : (root : ℤ) → All (IsPlain root) seen → All (IsPlain root) seen1
    pub size : length queue1 + unseen rows seen1 ≤ length queue + unseen rows seen

  member-append_one : (x c : ℤ) (q : List ℤ) → member x (q ++ c ∷ []) ≡ (member x q || c == x)
  unfolding any
  member-append_one x c [] = ground arith
  member-append_one x c (y ∷ q) = ground (arith, member-append_one x c q)

  scan_old :
      (c : ℤ) (cs queue seen : List ℤ)
      → member c seen ≡ true
      → scan rows (c ∷ cs) queue seen ≡ scan rows cs queue seen
  unfolding scan
  scan_old c cs queue seen e = rw e refl

  pub scan_found :
      (c : ℤ) (cs queue seen : List ℤ)
      → member c seen ≡ false
      → is_ssh rows c ≡ true
      → scan rows (c ∷ cs) queue seen ≡ (true, queue, c ∷ seen)
  unfolding scan is_ssh
  scan_found c cs queue seen e h = rw (e, h) refl

  scan_new :
      (c : ℤ) (cs queue seen : List ℤ)
      → member c seen ≡ false
      → is_ssh rows c ≡ false
      → scan rows (c ∷ cs) queue seen ≡ scan rows cs (queue ++ c ∷ []) (c ∷ seen)
  unfolding scan is_ssh
  scan_new c cs queue seen e h = rw (e, h) refl

  Scanned-old :
      (c : ℤ) (cs queue seen queue1 seen1 : List ℤ)
      → member c seen ≡ true
      → Scanned cs queue seen queue1 seen1
      → Scanned (c ∷ cs) queue seen queue1 seen1
  unfolding any
  Scanned-old c cs queue seen queue1 seen1 old v = record {
    keeps = v.keeps;
    stays = v.stays;
    queued = v.queued;
    origin = λ x k. elim (v.origin x k) [ inl o ↦ inl o | inr o ↦ inr (ground (arith, o)) ];
    covers = λ x k. ground (arith, k, v.covers x, v.keeps x, old, int_beq_iff c x);
    plain = v.plain;
    size = v.size;
  }

  Scanned-new :
      (c : ℤ) (cs queue seen queue1 seen1 : List ℤ)
      → member c seen ≡ false
      → is_ssh rows c ≡ false
      → member c (map process_id rows) ≡ true
      → Scanned cs (queue ++ c ∷ []) (c ∷ seen) queue1 seen1
      → Scanned (c ∷ cs) queue seen queue1 seen1
  unfolding any
  Scanned-new c cs queue seen queue1 seen1 new safe there v = record {
    keeps = λ x k. v.keeps x (ground (arith, k));
    stays = λ x k. v.stays x (ground (arith, k, member-append_one x c queue));
    queued = λ x k. elim (v.queued x k) [
      | inl o ↦ elim (Bool-cases (c == x)) [
        | inl e ↦ inr (v.stays x (ground (arith, e, member-append_one x c queue)))
        | inr e ↦ inl (ground (arith, o, e))
      ]
      | inr o ↦ inr o
    ];
    origin = λ x k. elim (v.origin x k) [
      | inl o ↦ elim (Bool-cases (c == x)) [
        | inl e ↦ inr (ground (arith, e))
        | inr e ↦ inl (ground (arith, o, e, member-append_one x c queue))
      ]
      | inr o ↦ inr (ground (arith, o))
    ];
    covers = λ x k. ground (arith, k, v.covers x, v.keeps x);
    plain = λ root k. v.plain root (ground (arith, safe), k);
    size = omega (arith, v.size, unseen-lt c seen rows new there, length-append {0} queue (c ∷ []));
  }

  pub scan-Scanned :
      (cs queue seen : List ℤ)
      → ((c : ℤ) → member c cs ≡ true → member c (map process_id rows) ≡ true)
      → (scan rows cs queue seen).0 ≡ false
      → Scanned cs queue seen (scan rows cs queue seen).1 (scan rows cs queue seen).2
  unfolding any
  scan-Scanned [] queue seen there h =
      unfold scan in
      record {
        keeps = λ x k. k;
        stays = λ x k. k;
        queued = λ x k. inl k;
        origin = λ x k. inl k;
        covers = λ c k. absurd (cc k);
        plain = λ root k. k;
        size = omega arith;
      }
  scan-Scanned (c ∷ cs) queue seen there h =
      let more : (x : ℤ) → member x cs ≡ true → member x (map process_id rows) ≡ true =
        λ x k. there x (ground (arith, k)) in
      elim (Bool-cases (member c seen)) [
        | inl old ↦ rw (scan_old c cs queue seen old) (
            Scanned-old c cs queue seen _ _ old (
              scan-Scanned cs queue seen more
                (ap (λ r. r.0) (sym (scan_old c cs queue seen old)) ∙ h)))
        | inr new ↦ elim (Bool-cases (is_ssh rows c)) [
          | inl found ↦ absurd (cc (ap (λ r. r.0) (sym (scan_found c cs queue seen new found)) ∙ h))
          | inr safe ↦ rw (scan_new c cs queue seen new safe) (
              Scanned-new c cs queue seen _ _ new safe (there c (ground (arith, eq_refl c))) (
                scan-Scanned cs (queue ++ c ∷ []) (c ∷ seen) more
                  (ap (λ r. r.0) (sym (scan_new c cs queue seen new safe)) ∙ h)))
        ]
      ]

  -- A round that finds ssh.
  pub scan-is_ssh :
      (cs queue seen : List ℤ)
      → (scan rows cs queue seen).0 ≡ true
      → (c : ℤ) × (member c cs ≡ true) × (is_ssh rows c ≡ true) × (member c seen ≡ false)
  unfolding any
  scan-is_ssh [] queue seen h = absurd (unfold scan in cc h)
  scan-is_ssh (c ∷ cs) queue seen h = elim (Bool-cases (member c seen)) [
    | inl old ↦
        let (x, k, s, n) =
          scan-is_ssh cs queue seen (ap (λ r. r.0) (sym (scan_old c cs queue seen old)) ∙ h) in
        (x, ground (arith, k), s, n)
    | inr new ↦ elim (Bool-cases (is_ssh rows c)) [
      | inl found ↦ (c, ground (arith, eq_refl c), found, new)
      | inr safe ↦
          let (x, k, s, n) =
            scan-is_ssh cs (queue ++ c ∷ []) (c ∷ seen)
              (ap (λ r. r.0) (sym (scan_new c cs queue seen new safe)) ∙ h) in
          (x, ground (arith, k), s, ground (arith, n))
    ]
  ]

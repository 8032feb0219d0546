-- ===== src/Security/Log.antt =====
-- kernel/security.c: the audit log, a ring of which the oldest entries are overwritten.
use shadow_box_os.Common.Int.{ℤ, pos}
use shadow_box_os.Common.{
  ℕ, zero, suc, ◌+◌, ◌-◌, ◌%◌, ◌≤◌, ◌<◌, ◌≡◌, ◌≢◌, refl, ap, sym, subst, ◌∙◌, inl, inr, Option,
  none, some, List, [], ◌∷◌, ◌++◌, length, set, get_or, take, drop, tabulate, replicate, min, ltb,
  ◌==◌, if◌then◌else◌, arith, Bool-cases, ℕ_discrete, append-nil, append_assoc, get_or-set_self,
  get_or-set_ne, length-set, length-append, tabulate_ext, length-replicate, length-drop, take-drop,
  take_all, ltb→lt,
}

-- What the text of an entry is. Two texts are logged in the whole kernel, both shorter than the 80
-- bytes of the field, so that none is cut; a slot that was never written has no text.
pub data Detail : Type 0 where
  no_text : Detail
  -- "LSM denied"
  lsm_denied : Detail
  -- "kill denied: no CAP_KILL"
  no_cap_kill : Detail

-- An entry of the log; the time is always 0.
pub record AuditEntry : Type 0 where
  pub pid : ℤ
  pub event_type : ℕ
  pub result : ℕ
  pub detail : Detail

pub record Audit : Type 0 where
  pub buffer : List AuditEntry
  pub head : ℕ
  pub count : ℕ

abbrev pub audit_size : ℕ
audit_size = 256

unfoldable pub audit_log : Audit → AuditEntry → Audit
audit_log a e = record {
  buffer = set a.buffer a.head e;
  head = (a.head + 1) % audit_size;
  count = if ltb a.count audit_size then a.count + 1 else a.count;
}

abbrev pub blank : AuditEntry
blank = record { pid = pos 0; event_type = 0; result = 0; detail = no_text }

-- `max` entries at most, from the oldest on; `none` is -EINVAL.
unfoldable pub audit_get_entries : Audit → ℕ → Option (List AuditEntry)
audit_get_entries a max =
    let to_copy = if ltb a.count max then a.count else max in
    let start = (a.head + audit_size - a.count) % audit_size in
    if max == 0
    then none
    else some (tabulate to_copy (λ i. get_or a.buffer ((start + i) % audit_size) blank))

-- The log after all of the entries.
unfoldable pub logged : Audit → List AuditEntry → Audit
logged a [] = a
logged a (e ∷ es) = logged (audit_log a e) es

-- The log holds the last 256 of the entries that were logged.
record Holds (a : Audit) (es : List AuditEntry) : Type 0 where
  pub backed : length a.buffer ≡ audit_size
  pub head_is : a.head ≡ length es % audit_size
  pub count_is : a.count ≡ min (length es) audit_size
  pub kept :
      (j : ℕ)
      → j < length es
      → length es ≤ j + audit_size
      → get_or a.buffer (j % audit_size) blank ≡ get_or es j blank

get_or-append :
    (es : List AuditEntry) (e : AuditEntry) (j : ℕ)
    → get_or (es ++ e ∷ []) j blank ≡ (if j == length es then e else get_or es j blank)
get_or-append [] e zero = refl
get_or-append [] e (suc j) = ground arith
get_or-append (x ∷ es) e zero = ground arith
get_or-append (x ∷ es) e (suc j) = ground (arith, get_or-append es e j)

audit_log-Holds :
    (a : Audit) (es : List AuditEntry) (e : AuditEntry)
    → Holds a es
    → Holds (audit_log a e) (es ++ e ∷ [])
unfolding audit_log
audit_log-Holds a es e v = record {
  backed = length-set a.buffer a.head e ∙ v.backed;
  head_is = omega (arith, v.head_is, length-append es (e ∷ []));
  count_is = ground (arith, v.count_is, length-append es (e ∷ []));
  kept = λ j lt le.
      let fits : length (es ++ e ∷ []) ≡ length es + 1 = length-append es (e ∷ []) in
      elim (ℕ_discrete j (length es)) [
        | yes last ↦
            let at : a.head ≡ j % audit_size = omega (arith, v.head_is, last) in
            subst (λ i. get_or (set a.buffer a.head e) i blank ≡ get_or (es ++ e ∷ []) j blank) at
              (get_or-set_self a.buffer a.head e blank (omega (arith, v.backed, v.head_is))
                ∙ sym (ground (arith, get_or-append es e j, last)))
        | no other ↦
            let apart : a.head ≢ j % audit_size = λ q. omega (arith, v.head_is) in
            get_or-set_ne a.buffer a.head (j % audit_size) e blank apart
            ∙ v.kept j (omega arith) (omega arith)
            ∙ sym (ground (arith, get_or-append es e j, other))
      ];
}

logged-Holds : (a : Audit) (xs es : List AuditEntry) → Holds a xs → Holds (logged a es) (xs ++ es)
unfolding logged
logged-Holds a xs [] v = subst (Holds a) (sym (append-nil xs)) v
logged-Holds a xs (e ∷ es) v =
    subst (Holds (logged (audit_log a e) es)) (append_assoc xs (e ∷ []) es)
      (logged-Holds (audit_log a e) (xs ++ e ∷ []) es (audit_log-Holds a xs e v))

abbrev pub empty_log : Audit
empty_log = record { buffer = replicate audit_size blank; head = 0; count = 0 }

empty_log-Holds : Holds empty_log []
empty_log-Holds = record {
  backed = length-replicate {A = AuditEntry} audit_size blank;
  head_is = refl;
  count_is = refl;
  kept = λ j lt. absurd (omega arith);
}

entries : (es : List AuditEntry) → List AuditEntry
entries es = drop (length es - audit_size) es

length-entries : (es : List AuditEntry) → length (entries es) ≡ min (length es) audit_size
unfolding entries
length-entries es = omega (arith, length-drop (length es - audit_size) es)

-- What is copied, for a count `n` of entries to copy.
copied :
    (a : Audit) (es : List AuditEntry) (n : ℕ)
    → Holds a es
    → n ≤ a.count
    → tabulate n (λ i.
      get_or a.buffer (((a.head + audit_size - a.count) % audit_size + i) % audit_size) blank)
      ≡ take n (entries es)
unfolding entries
copied a es n v h =
    tabulate_ext n _ _ (λ i lt.
      let e : ((a.head + audit_size - a.count) % audit_size + i) % audit_size
          ≡ (length es - audit_size + i) % audit_size =
        omega (arith, v.head_is, v.count_is) in
      ap (λ k. get_or a.buffer k blank) e
      ∙ v.kept (length es - audit_size + i) (omega (arith, v.count_is)) (omega arith))
    ∙ sym (take-drop (length es - audit_size) n es blank (omega (arith, v.count_is)))

audit_get_entries-Holds :
    (a : Audit) (es : List AuditEntry) (max : ℕ)
    → Holds a es
    → 0 < max
    → audit_get_entries a max ≡ some (take max (entries es))
unfolding audit_get_entries
audit_get_entries-Holds a es max v h = elim (Bool-cases (ltb a.count max)) [
  | inl all ↦
      let whole : take a.count (entries es) ≡ take max (entries es) =
        take_all a.count (entries es) (omega (arith, length-entries es, v.count_is))
        ∙ sym (
            take_all max (entries es)
              (omega (arith, length-entries es, v.count_is, ltb→lt a.count max))) in
      ground (arith, all, copied a es a.count v (omega arith), whole)
  | inr some_left ↦ ground (arith, some_left, copied a es max v (ground arith))
]

-- From an empty log, after any entries, audit_get_entries of some number gives that many of the last
-- 256 entries, or all of these, from the oldest on.
pub audit_get_entries_lem :
    (es : List AuditEntry) (max : ℕ)
    → 0 < max
    → audit_get_entries (logged empty_log es) max
      ≡ some (take max (drop (length es - audit_size) es))
unfolding entries
audit_get_entries_lem es max h =
    audit_get_entries-Holds (logged empty_log es) es max
      (logged-Holds empty_log [] es empty_log-Holds) h

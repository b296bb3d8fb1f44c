-- ===== src/View/Bands/Looked.antt =====
-- The entries that `fillBand` has looked at, with those it passed over.
use mathlib.Core.List.{append_assoc, append-nil}
use long_horizon_context.Base.{
  ℕ, ◌<◌, ◌≡◌, refl, sym, subst, ap, ◌∙◌, some, List, [], ◌∷◌, ◌++◌, map, arith, All, All-append,
  All-map, length, length-append, filter, filter-append, ltb, get_last?, lt→ltb,
}
use long_horizon_context.View.{ArrangementEntry}
use long_horizon_context.View.Bands.{PassedOver, reportable}

-- The entries `kept` and `passed`, mixed in the order of `seen`.
pub data Mixed
    : List ArrangementEntry → List ArrangementEntry → List ArrangementEntry → Type 0 where
  done : Mixed [] [] []
  keep :
      (e : ArrangementEntry) {kept passed seen : List ArrangementEntry}
      → Mixed kept passed seen
      → Mixed (e ∷ kept) passed (e ∷ seen)
  pass :
      (e : ArrangementEntry) {kept passed seen : List ArrangementEntry}
      → Mixed kept passed seen
      → Mixed kept (e ∷ passed) (e ∷ seen)

Mixed-append :
    {k p s k' p' s' : List ArrangementEntry}
    → Mixed k p s
    → Mixed k' p' s'
    → Mixed (k ++ k') (p ++ p') (s ++ s')
Mixed-append done m = m
Mixed-append (keep e l) m = keep e (Mixed-append l m)
Mixed-append (pass e l) m = pass e (Mixed-append l m)

Mixed-passed : (es : List ArrangementEntry) → Mixed [] es es
Mixed-passed [] = done
Mixed-passed (e ∷ es) = pass e (Mixed-passed es)

abbrev pub entries_of : List PassedOver → List ArrangementEntry
entries_of [] = []
entries_of (p ∷ passed) = p.entry ∷ entries_of passed

pub entries_of-append :
    (xs ys : List PassedOver) → entries_of (xs ++ ys) ≡ entries_of xs ++ entries_of ys
entries_of-append [] ys = refl
entries_of-append (x ∷ xs) ys = ap (◌∷◌ x.entry) (entries_of-append xs ys)

get_last?-snoc :
    (xs : List ArrangementEntry) (e : ArrangementEntry) → get_last? (xs ++ (e ∷ [])) ≡ some e
get_last?-snoc [] e = refl
get_last?-snoc (x ∷ []) e = refl
get_last?-snoc (x ∷ y ∷ xs) e = get_last?-snoc (y ∷ xs) e

abbrev IsEarlier : ℕ → PassedOver → Type 0
IsEarlier n p = p.included_before < n

abbrev IsNow : ℕ → PassedOver → Type 0
IsNow n p = p.included_before ≡ n

-- What was looked at: up to the last entry taken, and the entries passed over behind it.
pub record IsLooked (included : List ArrangementEntry) (passed : List PassedOver)
    (looked : List ArrangementEntry) : Type 0 where
  pub front : List ArrangementEntry
  pub reported : List PassedOver
  pub pending : List PassedOver
  pub split : passed ≡ reported ++ pending
  pub parted : looked ≡ front ++ entries_of pending
  pub mixed : Mixed included (entries_of reported) front
  pub last : get_last? front ≡ get_last? included
  pub earlier : All (IsEarlier (length included)) reported
  pub now : All (IsNow (length included)) pending

reportable-earlier :
    (included : List ArrangementEntry) (reported : List PassedOver)
    → All (IsEarlier (length included)) reported
    → reportable included reported ≡ entries_of reported
reportable-earlier included [] h = refl
reportable-earlier included (p ∷ reported) h =
    rw (lt→ltb p.included_before (length included) h.0)
      (ap (◌∷◌ p.entry) (reportable-earlier included reported h.1))

reportable-now :
    (included : List ArrangementEntry) (pending : List PassedOver)
    → All (IsNow (length included)) pending
    → filter (λ p. ltb p.included_before (length included)) pending ≡ []
reportable-now included [] h = refl
reportable-now included (p ∷ pending) h = ground (arith, h, reportable-now included pending h.1)

pub none-IsLooked : IsLooked [] [] []
none-IsLooked = record {
  front = [];
  reported = [];
  pending = [];
  split = refl;
  parted = refl;
  mixed = done;
  last = refl;
  earlier = tt;
  now = tt;
}

-- A later entry is taken: what was passed over before is reported from now on.
pub keep-IsLooked :
    {included : List ArrangementEntry} {passed : List PassedOver} {looked : List ArrangementEntry}
    (e : ArrangementEntry)
    → IsLooked included passed looked
    → IsLooked (included ++ (e ∷ [])) passed (looked ++ (e ∷ []))
keep-IsLooked {included} {passed} {looked} e h = record {
  front = looked ++ (e ∷ []);
  reported = passed;
  pending = [];
  split = sym (append-nil passed);
  parted = sym (append-nil (looked ++ (e ∷ [])));
  mixed =
      subst (λ l. Mixed (included ++ (e ∷ [])) l (looked ++ (e ∷ [])))
        (append-nil _ ∙ sym (entries_of-append h.reported h.pending) ∙ ap entries_of (sym h.split))
        (subst
          (λ l.
            Mixed (included ++ (e ∷ [])) ((entries_of h.reported ++ entries_of h.pending) ++ [])
              (l ++ (e ∷ [])))
          (sym h.parted)
          (Mixed-append
            (subst
              (λ l.
                Mixed l (entries_of h.reported ++ entries_of h.pending)
                  (h.front ++ entries_of h.pending))
              (append-nil included) (Mixed-append h.mixed (Mixed-passed (entries_of h.pending))))
            (keep e done)));
  last = get_last?-snoc looked e ∙ sym (get_last?-snoc included e);
  earlier = subst (All (IsEarlier (length (included ++ (e ∷ []))))) (sym h.split) (
      All-append (IsEarlier (length (included ++ (e ∷ [])))) h.reported h.pending
        (All-map _ _ (λ p l. omega (arith, l, length-append included (e ∷ []))) h.reported
          h.earlier)
        (All-map _ _ (λ p l. omega (arith, l, length-append included (e ∷ []))) h.pending h.now));
  now = tt;
}

pub pass-IsLooked :
    {included : List ArrangementEntry} {passed : List PassedOver} {looked : List ArrangementEntry}
    (e : ArrangementEntry)
    → IsLooked included passed looked
    → IsLooked included
        (passed ++ (record { entry = e; included_before = length included } ∷ []))
        (looked ++ (e ∷ []))
pass-IsLooked {included} {passed} {looked} e h =
    let p : PassedOver = record { entry = e; included_before = length included } in
    record {
      front = h.front;
      reported = h.reported;
      pending = h.pending ++ (p ∷ []);
      split = ap (λ l. l ++ (p ∷ [])) h.split ∙ append_assoc h.reported h.pending (p ∷ []);
      parted =
          ap (λ l. l ++ (e ∷ [])) h.parted
          ∙ append_assoc h.front (entries_of h.pending) (e ∷ [])
          ∙ ap (λ l. h.front ++ l) (sym (entries_of-append h.pending (p ∷ [])));
      mixed = h.mixed;
      last = h.last;
      earlier = h.earlier;
      now = All-append (IsNow (length included)) h.pending (p ∷ []) h.now (refl, tt);
    }

pub reportable-IsLooked :
    {included : List ArrangementEntry} {passed : List PassedOver} {looked : List ArrangementEntry}
    (h : IsLooked included passed looked)
    → reportable included passed ≡ entries_of h.reported
reportable-IsLooked {included} {passed} h =
    ap (reportable included) h.split
    ∙ ap (map (λ p. p.entry))
        (filter-append (λ p. ltb p.included_before (length included)) h.reported h.pending)
    ∙ ap
        (λ l.
          map (λ p. p.entry)
            (filter (λ p. ltb p.included_before (length included)) h.reported ++ l))
        (reportable-now included h.pending h.now)
    ∙ ap (map (λ p. p.entry)) (append-nil _)
    ∙ reportable-earlier included h.reported h.earlier

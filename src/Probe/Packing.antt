-- ===== src/Probe/Packing.antt =====
-- `add_probe` of src/probe.rs cuts a sequence of messages into groups, a batch to each.
use saimiris_gateway.Prelude.{
  ℕ, ◌+◌, ◌≤◌, ◌<◌, true, false, List, [], ◌∷◌, ◌++◌, map, ◌≡◌, refl, sym, ap, ◌∙◌, ◌⊎◌, inl, inr,
  arith, ltb, Bool-cases, All, All-append, concat, length, length-append, is_empty, append-nil,
  append_assoc,
}
use mathlib.Core.List.{map-append}
use saimiris_gateway.Probe.Batch.{Batches, roll, add_probe, finish}

abbrev pub Bytes : Type 0
Bytes = List ℕ

concat-append : (xss yss : List Bytes) → concat (xss ++ yss) ≡ concat xss ++ concat yss
concat-append [] yss = refl
concat-append (xs ∷ xss) yss = rw (concat-append xss yss, append_assoc)

concat_groups : (gs hs : List (List Bytes)) → concat (gs ++ hs) ≡ concat gs ++ concat hs
concat_groups [] hs = refl
concat_groups (g ∷ gs) hs = rw (concat_groups gs hs, append_assoc)

module _ (max_batch_size : ℕ) where
  -- A group of messages that share a batch: it fits, or it is one message.
  abbrev pub Fits : List Bytes → Type 0
  Fits g = (length (concat g) ≤ max_batch_size) ⊎ ((m : Bytes) × (g ≡ m ∷ []))

  -- The batches so far hold the groups `gs`, and the current batch the group `g`.
  pub record Holds (b : Batches) (gs : List (List Bytes)) (g : List Bytes) : Type 0 where
    pushed : b.batches ≡ map concat gs
    current : b.current_batch ≡ concat g
    counted : b.current_batch_size ≡ length b.current_batch
    fresh : is_empty b.current_batch ≡ true → g ≡ []
    closed : All Fits gs
    open_fits : (g ≡ []) ⊎ Fits g

  unfoldable pub pack : List Bytes → Batches → Batches
  pack [] b = b
  pack (m ∷ ms) b = pack ms (add_probe max_batch_size m b)

  -- The same messages, one more of them in a group.
  record Extends (b : Batches) (gs : List (List Bytes)) (g : List Bytes) (m : Bytes) : Type 0 where
    groups : List (List Bytes)
    group : List Bytes
    holds : Holds (add_probe max_batch_size m b) groups group
    same : concat groups ++ group ≡ (concat gs ++ g) ++ m ∷ []

  roll_kept :
      (b : Batches) (m : Bytes)
      → (is_empty b.current_batch ≡ true)
        ⊎ (ltb max_batch_size (b.current_batch_size + length m) ≡ false)
      → roll max_batch_size m b ≡ b
  unfolding roll
  roll_kept b m h = ground arith

  roll_full :
      (b : Batches) (m : Bytes)
      → is_empty b.current_batch ≡ false
      → ltb max_batch_size (b.current_batch_size + length m) ≡ true
      → roll max_batch_size m b ≡ record {
        batches = b.batches ++ b.current_batch ∷ [];
        current_batch = [];
        current_batch_size = 0;
      }
  unfolding roll
  roll_full b m e f = ground arith

  empty_of_is_empty : (xs : Bytes) → is_empty xs ≡ true → xs ≡ []
  empty_of_is_empty [] h = refl
  empty_of_is_empty (x ∷ xs) h = cc

  nonempty_append : (xs m : Bytes) → 0 < length m → is_empty (xs ++ m) ≡ true → ⊥
  nonempty_append [] [] n h = elim n [ ]
  nonempty_append [] (y ∷ m) n h = cc
  nonempty_append (x ∷ xs) m n h = cc

  concat_snoc : (g : List Bytes) (m : Bytes) → concat (g ++ m ∷ []) ≡ concat g ++ m
  concat_snoc g m = rw (concat-append g (m ∷ []), append-nil)

  -- The open group of a batch that holds bytes is one that may be closed.
  group_Fits :
      (b : Batches) (gs : List (List Bytes)) (g : List Bytes)
      → Holds b gs g
      → is_empty b.current_batch ≡ false
      → Fits g
  group_Fits b gs g h e = elim h.open_fits [
    | inl none_yet ↦ absurd (ground (arith, h.current, ap concat none_yet))
    | inr fits ↦ fits
  ]

  module _ (b : Batches) (gs : List (List Bytes)) (g : List Bytes) (m : Bytes) where
    first_Extends : 0 < length m → Holds b gs g → is_empty b.current_batch ≡ true → Extends b gs g m
    unfolding add_probe
    first_Extends n h e = record {
      groups = gs;
      group = m ∷ [];
      holds = rw (roll_kept b m (inl e)) (record {
        pushed = h.pushed;
        current = rw (empty_of_is_empty b.current_batch e, append-nil);
        counted = omega (arith, h.counted, length-append b.current_batch m);
        fresh = λ f. absurd (nonempty_append b.current_batch m n f);
        closed = h.closed;
        open_fits = inr (inr (m, refl));
      });
      same = rw (h.fresh e, append-nil);
    }

    full_Extends :
        0 < length m
        → Holds b gs g
        → is_empty b.current_batch ≡ false
        → ltb max_batch_size (b.current_batch_size + length m) ≡ true
        → Extends b gs g m
    unfolding add_probe
    full_Extends n h e f = record {
      groups = gs ++ g ∷ [];
      group = m ∷ [];
      holds = rw (roll_full b m e f) (record {
        pushed = rw (map-append, h.pushed, h.current);
        current = rw append-nil;
        counted = omega arith;
        fresh = λ k. absurd (nonempty_append [] m n k);
        closed = All-append Fits gs (g ∷ []) h.closed (group_Fits b gs g h e, tt);
        open_fits = inr (inr (m, refl));
      });
      same = rw (concat_groups gs (g ∷ []), append-nil);
    }

    room_Extends :
        0 < length m
        → Holds b gs g
        → ltb max_batch_size (b.current_batch_size + length m) ≡ false
        → Extends b gs g m
    unfolding add_probe
    room_Extends n h f = record {
      groups = gs;
      group = g ++ m ∷ [];
      holds = rw (roll_kept b m (inr f)) (record {
        pushed = h.pushed;
        current = rw (concat_snoc g m, h.current);
        counted = omega (arith, h.counted, length-append b.current_batch m);
        fresh = λ k. absurd (nonempty_append b.current_batch m n k);
        closed = h.closed;
        open_fits = inr (
            inl (
              rw (concat_snoc g m)
                (ground (arith, length-append (concat g) m, ap length h.current, h.counted))));
      });
      same = rw append_assoc;
    }

  add_probe-Extends :
      (b : Batches) (gs : List (List Bytes)) (g : List Bytes) (m : Bytes)
      → 0 < length m
      → Holds b gs g
      → Extends b gs g m
  add_probe-Extends b gs g m n h = elim (Bool-cases (is_empty b.current_batch)) [
    | inl e ↦ first_Extends b gs g m n h e
    | inr e ↦ elim (Bool-cases (ltb max_batch_size (b.current_batch_size + length m))) [
      | inl f ↦ full_Extends b gs g m n h e f
      | inr f ↦ room_Extends b gs g m n h f
    ]
  ]

  -- How batches come from messages: by cutting the sequence of whole messages into groups.
  pub record Packs (ms bs : List Bytes) : Type 0 where
    pub groups : List (List Bytes)
    pub in_order : concat groups ≡ ms
    pub batched : bs ≡ map concat groups
    pub fits : All Fits groups

  finish-Packs :
      (b : Batches) (gs : List (List Bytes)) (g ms : List Bytes)
      → Holds b gs g
      → concat gs ++ g ≡ ms
      → Packs ms (finish b)
  finish-Packs b gs g ms h same = elim (Bool-cases (is_empty b.current_batch)) [
    | inl e ↦ record {
      groups = gs;
      in_order = sym (append-nil (concat gs)) ∙ rw (sym (h.fresh e)) same;
      batched = rw e h.pushed;
      fits = h.closed;
    }
    | inr e ↦ record {
      groups = gs ++ g ∷ [];
      in_order = rw (concat_groups gs (g ∷ []), append-nil) same;
      batched = rw (e, map-append, h.pushed, h.current);
      fits = All-append Fits gs (g ∷ []) h.closed (group_Fits b gs g h e, tt);
    }
  ]

  pub pack-Packs :
      (ms : List Bytes) (b : Batches) (gs : List (List Bytes)) (g before : List Bytes)
      → All (λ m. 0 < length m) ms
      → Holds b gs g
      → concat gs ++ g ≡ before
      → Packs (before ++ ms) (finish (pack ms b))
  unfolding pack
  pack-Packs [] b gs g before n h same = finish-Packs b gs g _ h (rw append-nil same)
  pack-Packs (m ∷ ms) b gs g before n h same =
      let x = add_probe-Extends b gs g m n.0 h in
      rw (sym (append_assoc before (m ∷ []) ms)) (
        pack-Packs ms (add_probe max_batch_size m b) x.groups x.group (before ++ m ∷ []) n.1 x.holds
          (x.same ∙ ap (λ l. l ++ m ∷ []) same))

abbrev pub start : Batches
start = record { batches = []; current_batch = []; current_batch_size = 0 }

pub start-Holds : (max_batch_size : ℕ) → Holds max_batch_size start [] []
start-Holds max_batch_size = record {
  pushed = refl;
  current = refl;
  counted = refl;
  fresh = λ _. refl;
  closed = tt;
  open_fits = inl refl;
}

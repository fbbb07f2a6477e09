-- ===== src/Harness/Lifecycle/Counting.antt =====
-- How the sets and dictionaries of `lifecycle_invariant` in src/aegisrun/harness/invariants.py count
-- what begins and ends.
use equi_seek.Prelude.{
  String, ◌==◌, eq_iff, ◌≡◌, Bool, true, false, not, ◌&&◌, ◌||◌, List, elem, arith,
}
use equi_seek.Dict.{Dict, keys, insert, erase, elem-keys-insert, elem-keys-erase}
use equi_seek.Harness.Sets.{add, remove, elem-add, elem-remove}
use equi_seek.Harness.Lifecycle.Tally.{Counts}

module _ (a id : String) (o c : List String) (h : not (elem id o && elem id c) ≡ true) where
  pub begin_apart :
      not (elem a o || elem a c) ≡ true
      → Counts
          (not (elem id o && elem id c))
          (elem id o || elem id c)
          (elem id c)
          (not (elem id (add a o) && elem id c))
          (elem id (add a o) || elem id c)
          (elem id c)
          (a == id)
          false
  begin_apart g = record {
    stays_sane = ground (arith, elem-add a id o, eq_iff a id);
    counts_begun = ground (arith, elem-add a id o, eq_iff a id);
    counts_ended = ground arith;
  }

  pub end_apart :
      elem a o ≡ true
      → Counts
          (not (elem id o && elem id c))
          (elem id o || elem id c)
          (elem id c)
          (not (elem id (remove a o) && elem id (add a c)))
          (elem id (remove a o) || elem id (add a c))
          (elem id (add a c))
          false
          (a == id)
  end_apart g = record {
    stays_sane = ground (arith, elem-add a id c, elem-remove a id o, eq_iff a id);
    counts_begun = ground (arith, elem-add a id c, elem-remove a id o, eq_iff a id);
    counts_ended = ground (arith, elem-add a id c, eq_iff a id);
  }

-- a dictionary or set of what has begun, and the set of what has ended
module _ (a id : String) (b d now : Bool) (h : (not d || b) ≡ true) where
  pub begin_nested :
      now ≡ ((a == id) || b)
      → (a ≡ id → b ≡ false)
      → Counts (not d || b) b d (not d || now) now d (a == id) false
  begin_nested e g = record {
    stays_sane = ground (arith, eq_iff a id, g);
    counts_begun = ground (arith, eq_iff a id, g);
    counts_ended = ground arith;
  }

  pub end_nested :
      now ≡ ((a == id) || d)
      → (a ≡ id → b ≡ true)
      → (a ≡ id → d ≡ false)
      → Counts (not d || b) b d (not now || b) b now false (a == id)
  end_nested e g n = record {
    stays_sane = ground (arith, eq_iff a id, g, n);
    counts_begun = ground arith;
    counts_ended = ground (arith, eq_iff a id, g, n);
  }

module _ (a id : String) (o : Dict String) (c : List String) where
  pub begin_step :
      (turn : String)
      → not (elem id (keys o) && elem id c) ≡ true
      → not (elem a (keys o) || elem a c) ≡ true
      → Counts
          (not (elem id (keys o) && elem id c))
          (elem id (keys o) || elem id c)
          (elem id c)
          (not (elem id (keys (insert a turn o)) && elem id c))
          (elem id (keys (insert a turn o)) || elem id c)
          (elem id c)
          (a == id)
          false
  begin_step turn h g = record {
    stays_sane = ground (arith, elem-keys-insert a id turn o, eq_iff a id);
    counts_begun = ground (arith, elem-keys-insert a id turn o, eq_iff a id);
    counts_ended = ground arith;
  }

  pub end_step :
      not (elem id (keys o) && elem id c) ≡ true
      → elem a (keys o) ≡ true
      → Counts
          (not (elem id (keys o) && elem id c))
          (elem id (keys o) || elem id c)
          (elem id c)
          (not (elem id (keys (erase a o)) && elem id (add a c)))
          (elem id (keys (erase a o)) || elem id (add a c))
          (elem id (add a c))
          false
          (a == id)
  end_step h g = record {
    stays_sane = ground (arith, elem-keys-erase a id o, elem-add a id c, eq_iff a id);
    counts_begun = ground (arith, elem-keys-erase a id o, elem-add a id c, eq_iff a id);
    counts_ended = ground (arith, elem-add a id c, eq_iff a id);
  }

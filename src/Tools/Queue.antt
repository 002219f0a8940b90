-- ===== src/Tools/Queue.antt =====
-- utils/libruseq/local-indexer.cpp: the class Collector, the queue between the threads of the indexer.
pub mod Order
use palmira.Prelude.{
  ℕ, ◌≡◌, Bool, true, false, not, ◌||◌, List, [], ◌∷◌, ◌++◌, Option, none, some, ltb, length,
  if◌then◌else◌,
}

-- Collector, with the two flags of the program that it reads.
pub record Collector (V : Type 0) : Type 0 where
  pub list : List V
  pub can_continue : Bool
  pub no_more_files : Bool

-- What a call of Get comes to, once it need not wait: it gives a value, or false.
pub data Got (V : Type 0) : Type 0 where
  got : V → Collector V → Got V
  ended : Got V

-- The queue with all that was put and all that was got, in that order.
pub record Log (V : Type 0) : Type 0 where
  pub queue : Collector V
  pub puts : List V
  pub gots : List V

module _ {V : Type 0} (limit : ℕ) where
  -- Put, under the lock: none is that it waits.
  unfoldable pub put : V → Collector V → Option (Collector V)
  put v c =
      if ltb (length c.list) limit || not c.can_continue
      then some (record c { list = c.list ++ v ∷ [] })
      else none

  -- Get, under the lock: none is that it waits, and waits on after a second.
  unfoldable pub get : Collector V → Option (Got V)
  get c =
      if c.can_continue
      then elim c.list [
        | [] ↦ if c.no_more_files then some ended else none
        | (v ∷ vs) ↦ some (got v (record c { list = vs }))
      ]
      else some ended

  -- One step, of any thread.
  pub data Step (s : Log V) : Log V → Type 0 where
    put_one :
        (v : V) (c : Collector V)
        → put v s.queue ≡ some c
        → Step s (record s { queue = c; puts = s.puts ++ v ∷ [] })
    get_one :
        (v : V) (c : Collector V)
        → get s.queue ≡ some (got v c)
        → Step s (record s { queue = c; gots = s.gots ++ v ∷ [] })
    get_none : get s.queue ≡ some ended → Step s s
    no_more : Step s (record s { queue = record s.queue { no_more_files = true } })
    stop : Step s (record s { queue = record s.queue { can_continue = false } })

  abbrev pub fresh : Log V
  fresh = record {
    queue = record { list = []; can_continue = true; no_more_files = false };
    puts = [];
    gots = [];
  }

  pub data Reach : Log V → Type 0 where
    start : Reach fresh
    later : {s t : Log V} → Reach s → Step s t → Reach t

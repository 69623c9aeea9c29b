-- ===== src/Counting/Steps.antt =====
-- core/language.py, class CountBucket: the calls that the runtime and the application make, in any
-- order. A call that waits while the bucket is in an update is a step only outside one.
use pyretic.Base.{ℕ, suc, Bool, true, false, some, List, ℤ, ◌≡◌}
use pyretic.Packet.{Packet}
use pyretic.Install.Concrete.{Dict}
use pyretic.Counting.{Counts, CountBucket, FlowStat, new_count_bucket}
use pyretic.Counting.Operations.{
  add_match, delete_match, collect_packet, apply, start_update, finish_update, add_pull_stats,
  add_pull_existing_stats, pull_stats, handle_flow_removed, handle_flow_stats_reply,
}

-- One more, if so.
abbrev pub count : Bool → ℕ → ℕ
count true n = suc n
count false n = n

-- A step, and whether it is a pull of the application.
pub data Step : Bool → CountBucket → CountBucket → Type 0 where
  adding :
      (m : Dict) (priority : ℤ) (version : ℕ) (b : CountBucket)
      → Step false b (add_match m priority version b)
  deleting :
      (m : Dict) (priority : ℤ) (version : ℕ) (now : Bool) (b : CountBucket)
      → Step false b (delete_match m priority version now b)
  collecting : (pkt : Packet) (b : CountBucket) → Step false b (collect_packet pkt b)
  applying : (b c : CountBucket) → apply b ≡ some c → Step false b c
  starting : (b : CountBucket) → Step false b (start_update b)
  setting : (b : CountBucket) → Step false b (add_pull_stats b)
  setting_existing : (b : CountBucket) → Step false b (add_pull_existing_stats b)
  finishing : (up : List ℕ) (b : CountBucket) → Step false b (finish_update up b)
  removing :
      (m : Dict) (priority : ℤ) (version : ℕ) (n : Counts) (b c : CountBucket)
      → b.in_update ≡ false
      → handle_flow_removed m priority version n b ≡ some c
      → Step false b c
  pulling : (up : List ℕ) (b : CountBucket) → b.in_update ≡ false → Step true b (pull_stats up b)
  replying :
      (s : ℕ) (stats : List FlowStat) (b c : CountBucket)
      → b.in_update ≡ false
      → handle_flow_stats_reply s stats b ≡ some c
      → Step false b c

-- The bucket after some steps, and how many of them were pulls.
pub data Run : ℕ → CountBucket → Type 0 where
  created : Run 0 new_count_bucket
  then_ : {n : ℕ} {pull : Bool} {b c : CountBucket} → Run n b → Step pull b c → Run (count pull n) c

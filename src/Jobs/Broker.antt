-- ===== src/Jobs/Broker.antt =====
-- The two queues of instances as src/internal/mq/connect_mq.go declares them: a message that is sent
-- back goes to the retry queue, and from there to the main queue when its time is over.
pub mod Ends
use kws.Prelude.{ℕ, zero, suc, ◌≡◌, List, [], ◌∷◌, ◌++◌, select}
use kws.World.{World, Message, acked, nacked, Services}
use kws.World.Frame.{GoesOn}
use kws.Address.{IpAllocator}
use kws.Jobs.{consume}
use kws.Untouched.{is_answer}

pub record System (Memory : Type 0) : Type 0 where
  pub world : World Memory
  pub main : List Message
  pub waiting : List Message

-- One step: the delivery of the first message, which does not crash, or the end of the
-- first waiting message's time.
pub data Step (s : Services) (a : IpAllocator) : System s.Memory → System s.Memory → Type 0 where
  acknowledged :
      (w : World s.Memory) (m : Message) (rest waiting : List Message)
      → GoesOn (consume s a m w).0
      → select is_answer (consume s a m w).1.log ≡ acked ∷ select is_answer w.log
      → Step s a
          (record { world = w; main = m ∷ rest; waiting = waiting })
          (record { world = (consume s a m w).1; main = rest; waiting = waiting })
  sent_back :
      (w : World s.Memory) (m : Message) (rest waiting : List Message)
      → GoesOn (consume s a m w).0
      → select is_answer (consume s a m w).1.log ≡ nacked ∷ select is_answer w.log
      → Step s a
          (record { world = w; main = m ∷ rest; waiting = waiting })
          (record { world = (consume s a m w).1; main = rest; waiting = waiting ++ m ∷ [] })
  expired :
      (w : World s.Memory) (m : Message) (main rest : List Message)
      → Step s a
          (record { world = w; main = main; waiting = m ∷ rest })
          (record { world = w; main = main ++ m ∷ []; waiting = rest })

-- So many steps.
pub data Run (s : Services) (a : IpAllocator) : ℕ → System s.Memory → System s.Memory → Type 0 where
  here : (x : System s.Memory) → Run s a zero x x
  later : {n : ℕ} {x y z : System s.Memory} → Step s a x y → Run s a n y z → Run s a (suc n) x z

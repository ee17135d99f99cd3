-- ===== src/TcpServer/Clients.antt =====
-- The set of clients and the heap, asked which clients they hold.
use device_tester.Prelude.{
  ◌≢◌, suc, Option-cases, ℕ, ◌<◌, ◌≡◌, refl, inl, inr, Bool, false, not, ◌&&◌, ◌||◌, ◌==◌,
  if◌then◌else◌, Option, some, none, List, [], ◌∷◌, arith,
}
use device_tester.RingBuffer.Container.{CircularBuffer}
use device_tester.Prelude.{Bytes}
use device_tester.Asio.{SocketApi}
use device_tester.TcpServer.{insert, erase, put, change, stop_each}
use device_tester.TcpServer.Session.{TcpServerClient}
use device_tester.TcpServer.Session

abbrev pub contains : List ℕ → ℕ → Bool
contains [] q = false
contains (x ∷ xs) q = (x == q) || contains xs q

-- The addresses rise from `low` on.
abbrev pub Rising : ℕ → List ℕ → Type 0
Rising low [] = Unit {0}
Rising low (x ∷ xs) = (low < suc x) × Rising (suc x) xs

pub contains-insert :
    (p : ℕ) (xs : List ℕ) (q : ℕ) → contains (insert p xs) q ≡ ((p == q) || contains xs q)
unfolding insert
contains-insert p [] q = refl
contains-insert p (x ∷ xs) q = ground (arith, contains-insert p xs q)

pub contains_below :
    (low : ℕ) (xs : List ℕ) (q : ℕ) → q < low → Rising low xs → contains xs q ≡ false
contains_below low [] q h r = refl
contains_below low (x ∷ xs) q h r = ground (arith, contains_below (suc x) xs q)

pub contains-erase :
    (p : ℕ) (low : ℕ) (xs : List ℕ) (q : ℕ)
    → Rising low xs
    → contains (erase p xs) q ≡ (not (p == q) && contains xs q)
unfolding erase
contains-erase p low [] q r = ground arith
contains-erase p low (x ∷ xs) q r =
    ground (arith, contains-erase p (suc x) xs q r.1, contains_below (suc x) xs q)

pub insert-Rising :
    (low p : ℕ) (xs : List ℕ) → low < suc p → Rising low xs → Rising low (insert p xs)
unfolding insert
insert-Rising low p [] h r = (h, tt)
insert-Rising low p (x ∷ xs) h r = ground (arith, insert-Rising (suc x) p xs)

pub Rising-mono : (low high : ℕ) (xs : List ℕ) → low < suc high → Rising high xs → Rising low xs
Rising-mono low high [] h r = tt
Rising-mono low high (x ∷ xs) h r = (omega arith, r.1)

pub erase-Rising : (low p : ℕ) (xs : List ℕ) → Rising low xs → Rising low (erase p xs)
unfolding erase
erase-Rising low p [] r = tt
erase-Rising low p (x ∷ xs) r =
    ground (arith, erase-Rising (suc x) p xs r.1, Rising-mono low (suc x) xs)

module _ ⦃box : CircularBuffer Bytes⦄ ⦃net : SocketApi⦄ where
  -- Does the client at `p` run?
  abbrev pub runs : Option TcpServerClient → Bool
  runs none = false
  runs (some c) = c.do_run

  pub runs-put :
      (heap : ℕ → Option TcpServerClient) (p : ℕ) (c : TcpServerClient) (q : ℕ)
      → runs (put heap p c q) ≡ (if p == q then c.do_run else runs (heap q))
  unfolding put
  runs-put heap p c q = ground arith

  -- A change that does not start or stop a client is not seen.
  pub runs-change_same :
      (heap : ℕ → Option TcpServerClient) (p : ℕ) (f : TcpServerClient → TcpServerClient) (q : ℕ)
      → ((c : TcpServerClient) → (f c).do_run ≡ c.do_run)
      → runs (change heap p f q) ≡ runs (heap q)
  unfolding change
  runs-change_same heap p f q same = elim (Option-cases (heap p)) [
    | inl e ↦ ground arith
    | inr (c, e) ↦ ground (arith, same c)
  ]

  pub runs-change-stop :
      (heap : ℕ → Option TcpServerClient) (p q : ℕ)
      → runs (change heap p Session.stop q) ≡ (not (p == q) && runs (heap q))
  unfolding change Session.stop
  runs-change-stop heap p q = ground arith

  pub runs-stop_each :
      (ps : List ℕ) (heap : ℕ → Option TcpServerClient) (q : ℕ)
      → runs (stop_each heap ps q) ≡ (not (contains ps q) && runs (heap q))
  unfolding stop_each
  runs-stop_each [] heap q = refl
  runs-stop_each (p ∷ ps) heap q =
      ground (arith, runs-stop_each ps (change heap p Session.stop) q, runs-change-stop heap p q)

  -- Is there a client, and does it run?
  abbrev pub status : Option TcpServerClient → Option Bool
  status none = none
  status (some c) = some c.do_run

  pub runs_of_status : (a b : Option TcpServerClient) → status a ≡ status b → runs a ≡ runs b
  runs_of_status none none e = refl
  runs_of_status none (some b) e = cc
  runs_of_status (some a) none e = cc
  runs_of_status (some a) (some b) e = ground arith

  pub status-put :
      (heap : ℕ → Option TcpServerClient) (p : ℕ) (c : TcpServerClient) (q : ℕ)
      → status (put heap p c q) ≡ (if p == q then some c.do_run else status (heap q))
  unfolding put
  status-put heap p c q = ground arith

  pub status-change :
      (heap : ℕ → Option TcpServerClient) (p : ℕ) (f : TcpServerClient → TcpServerClient) (q : ℕ)
      → ((c : TcpServerClient) → (f c).do_run ≡ c.do_run)
      → status (change heap p f q) ≡ status (heap q)
  unfolding change
  status-change heap p f q same = elim (Option-cases (heap p)) [
    | inl e ↦ ground arith
    | inr (c, e) ↦ ground (arith, same c)
  ]

  pub status-change-stop :
      (heap : ℕ → Option TcpServerClient) (p q : ℕ)
      → p ≢ q
      → status (change heap p Session.stop q) ≡ status (heap q)
  unfolding change Session.stop
  status-change-stop heap p q ne = ground arith

  pub do_run-receive :
      (bytes : Bytes) (c : TcpServerClient) → (Session.receive c bytes).do_run ≡ c.do_run
  unfolding Session.receive
  do_run-receive bytes c = ground arith

  -- What `stop` makes of a client that there is.
  abbrev pub stopped : Option Bool → Option Bool
  stopped none = none
  stopped (some b) = some false

  pub status-change_at :
      (heap : ℕ → Option TcpServerClient) (p q : ℕ)
      → status (change heap p Session.stop q)
        ≡ (if p == q then stopped (status (heap q)) else status (heap q))
  unfolding change Session.stop
  status-change_at heap p q = ground arith

  pub status-stop_each :
      (ps : List ℕ) (heap : ℕ → Option TcpServerClient) (q : ℕ)
      → status (stop_each heap ps q)
        ≡ (if contains ps q then stopped (status (heap q)) else status (heap q))
  unfolding stop_each
  status-stop_each [] heap q = refl
  status-stop_each (p ∷ ps) heap q =
      ground (arith, status-stop_each ps (change heap p Session.stop) q, status-change_at heap p q)

-- ===== src/Asio/Loopback.antt =====
-- Sockets that are no more than open or closed, with one port that is taken: the laws of `SocketApi` can
-- be met.
use device_tester.Prelude.{
  sym, ℕ, ◌≡◌, refl, Bool, true, false, ◌==◌, if◌then◌else◌, Option, some, none, String, arith,
}
use device_tester.Asio.{SocketApi}

abbrev pub opened : Bool → Option Bool
opened true = none
opened false = some true

abbrev pub taken_port : ℕ
taken_port = 80

abbrev pub bound : Bool → ℕ → Option Bool
bound s port = if port == taken_port then none else some s

pub opened_twice : (s : Bool) → s ≡ true → opened s ≡ none
opened_twice true e = refl
opened_twice false e = cc

pub opened_open : (s t : Bool) → opened s ≡ some t → t ≡ true
opened_open true t e = cc
opened_open false t e = cc

pub bound_same : (s t : Bool) (port : ℕ) → bound s port ≡ some t → t ≡ s
bound_same s t port e = ground arith

pub some-inj : (s t : Bool) → some s ≡ some t → s ≡ t
some-inj s t e = cc

instance abbrev pub loopback : SocketApi
loopback = record {
  Address = String;
  make_address = λ a. some a;
  to_string = λ a. a;
  Socket = Bool;
  fresh = false;
  is_open = λ s. s;
  open_socket = λ s p. opened s;
  bind = λ s p port. bound s port;
  listening = λ s. some s;
  connected = λ s a port. true;
  cancel = λ s. s;
  close = λ s. false;
  shutdown = λ s. s;
  is_open-fresh = refl;
  open_twice = λ s p. opened_twice s;
  is_open-open_socket = λ s t p. opened_open s t;
  is_open-bind = λ s t p port. bound_same s t port;
  is_open-listening = λ s t e. sym (some-inj s t e);
  is_open-connected = λ s a port. refl;
  is_open-cancel = λ s. refl;
  is_open-shutdown = λ s. refl;
  is_open-close = λ s. refl;
}

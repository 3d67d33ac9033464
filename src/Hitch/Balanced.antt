-- ===== src/Hitch/Balanced.antt =====
-- A run of calls keeps the total that every state of a channel divides
-- (sidestr-hitch/src/protocol/machine.rs).
use sidestr_rs.Base.{ℕ, List}
use sidestr_rs.Hitch.Machine.{Crypto, Channel, Machine}
use sidestr_rs.Hitch.Steps.{Call, run}
use sidestr_rs.Hitch.Total.{IsFunded, drop_pending-IsFunded, SameStates-IsFunded}
use sidestr_rs.Hitch.Funded.{propose-IsFunded, IsReceived-IsFunded}
use sidestr_rs.Hitch.Adopted.{receive_ack-IsFunded}
use sidestr_rs.Hitch.Preserved.{run-Holds}

module _ (total : ℕ) (k : Crypto) (c : Channel) where
  -- Whatever calls drive a channel, where every state it holds and every alternative it has signed
  -- divides one total between the balances and the HTLCs, so does each that it holds afterwards.
  pub run-IsFunded :
      (m : Machine) (is : List Call) → IsFunded total m → IsFunded total (run k c m is).0
  run-IsFunded =
      run-Holds (IsFunded total) (λ m m' same. SameStates-IsFunded total m m' (same.0, same.1))
        (drop_pending-IsFunded total) k c (λ m p held. held)
        (λ m u next ctx m' x. propose-IsFunded total k c m u next ctx)
        (IsReceived-IsFunded total k c) (receive_ack-IsFunded total k c)

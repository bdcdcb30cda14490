-- ===== src/Ash/Link/Invariant.antt =====
-- What holds of the two connections and the two lines of a link after any run.
use rsezsp.Prelude.{ℕ, take, arith, ◌≡◌, refl}
use rsezsp.Ash.Connection.{Connection, on_rst_ack}
use rsezsp.Ash.Link.{Link, joined}
use rsezsp.Ash.Link.Channels.{Forth, clear, Back}
use rsezsp.Ash.Link.Sender.{Sends}
use rsezsp.Ash.Link.Receiver.{Takes}

pub record IsSound (l : Link) : Type 0 where
  pub base : ℕ
  pub expected : ℕ
  pub sends : Sends l.sent base l.sender
  pub takes : Takes expected l.receiver
  pub forth : Forth l.sent expected l.forth
  pub back : Back base expected l.back
  pub given : l.given ≡ take expected l.sent

pub joined-IsSound : (c d : Connection) → IsSound (joined c d)
unfolding on_rst_ack
joined-IsSound c d = record {
  base = 0;
  expected = 0;
  sends = record {
    window = tt;
    bounded = omega arith;
    total = omega arith;
    held = refl;
    tx = omega arith;
  };
  takes = record { rx = omega arith; silent = refl };
  forth = clear (omega arith);
  back = clear (omega arith);
  given = refl;
}

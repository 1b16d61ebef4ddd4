-- ===== src/Session/Gate.antt =====
-- autotrader/lifecycle.py, `EntryGate`: whether new entries are permitted, and the one-way halt of the
-- session.
use autotrader_ai.Prelude.{◌≡◌, refl, Bool, true, false, not, ◌&&◌, List, [], ◌∷◌, ◌++◌, arith}
use autotrader_ai.Float.{fixed_float}

pub record EntryGate : Type 0 where
  pub enabled : Bool
  pub halted : Bool

abbrev pub new_gate : Bool → EntryGate
new_gate e = record { enabled = e; halted = false }

unfoldable pub entries_enabled : EntryGate → Bool
entries_enabled g = g.enabled && not g.halted

unfoldable pub open_gate : EntryGate → EntryGate
open_gate g = record g { enabled = true }

unfoldable pub close_gate : EntryGate → EntryGate
close_gate g = record g { enabled = false }

unfoldable pub halt_gate : EntryGate → EntryGate
halt_gate g = record g { halted = true; enabled = false }

-- The calls that a session makes on its gate.
pub data GateCall : Type 0 where
  opened closed halt : GateCall

unfoldable pub apply_call : EntryGate → GateCall → EntryGate
unfolding open_gate close_gate halt_gate
apply_call g GateCall.opened = open_gate g
apply_call g GateCall.closed = close_gate g
apply_call g GateCall.halt = halt_gate g

unfoldable pub apply_calls : EntryGate → List GateCall → EntryGate
unfolding apply_call
apply_calls g [] = g
apply_calls g (c ∷ cs) = apply_calls (apply_call g c) cs

stays_halted :
    (g : EntryGate) (cs : List GateCall) → g.halted ≡ true → (apply_calls g cs).halted ≡ true
unfolding apply_calls
stays_halted g [] h = h
stays_halted g (GateCall.opened ∷ cs) h = stays_halted (open_gate g) cs h
stays_halted g (GateCall.closed ∷ cs) h = stays_halted (close_gate g) cs h
stays_halted g (GateCall.halt ∷ cs) h = stays_halted (halt_gate g) cs refl

apply_calls-append :
    (g : EntryGate) (cs ds : List GateCall)
    → apply_calls g (cs ++ ds) ≡ apply_calls (apply_calls g cs) ds
unfolding apply_calls
apply_calls-append g [] ds = refl
apply_calls-append g (c ∷ cs) ds = apply_calls-append (apply_call g c) cs ds

-- After a halt entries stay closed for the rest of the session, whatever calls the gate gets before
-- and after it, an `open` at the next entry job included.
pub halt_is_final :
    (g : EntryGate) (before after : List GateCall)
    → entries_enabled (apply_calls g (before ++ GateCall.halt ∷ after)) ≡ false
unfolding entries_enabled
halt_is_final g before after =
    let h : (apply_calls g (before ++ GateCall.halt ∷ after)).halted ≡ true =
      rw (apply_calls-append g before (GateCall.halt ∷ after)) (halts (apply_calls g before)) in
    ground arith
  where
    halts : (k : EntryGate) → (apply_calls k (GateCall.halt ∷ after)).halted ≡ true
    halts k = unfold apply_calls in stays_halted (halt_gate k) after refl

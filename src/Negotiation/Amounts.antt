-- ===== src/Negotiation/Amounts.antt =====
-- Arithmetic of Money (primitives.py).
use voice_os.Prelude.{◌≡◌, ok, arith}
use voice_os.Negotiation.{Money, money_add, money_sub}

-- What was added can be taken away again.
pub money_sub-money_add : (a b : Money) {c : Money} → money_add a b ≡ ok c → money_sub c b ≡ ok a
unfolding money_add money_sub
money_sub-money_add a b {c} e = ground arith

-- A difference that does not raise and its subtrahend add up.
pub money_add-money_sub : (a b : Money) {c : Money} → money_sub a b ≡ ok c → money_add c b ≡ ok a
unfolding money_add money_sub
money_add-money_sub a b {c} e = ground arith

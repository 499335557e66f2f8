-- ===== src/Watch/Raises.antt =====
-- Code that does not raise one exception, taken apart at its binds and conditions.
use openlaps.Common.{◌≡◌, ◌≢◌, ap, Bool, true, false, if◌then◌else◌}
use openlaps.Common.Result.{Result, ok, err, ◌>>=◌}
use openlaps.Watch.{Raised}

abbrev pub Avoids : {A : Type 0} → Raised → Result Raised A → Type 0
Avoids x r = r ≢ err x

pub ok-Avoids : {A : Type 0} (x : Raised) (a : A) → Avoids x (ok a)
ok-Avoids x a e = cc e

pub >>=-Avoids :
    {A B : Type 0} (x : Raised) (first : Result Raised A) (next : A → Result Raised B)
    → Avoids x first
    → ((a : A) → Avoids x (next a))
    → Avoids x (first >>= next)
>>=-Avoids x (ok a) next h k = k a
>>=-Avoids x (err y) next h k = λ e. let same : y ≡ x = cc e in h (ap err same)

pub if-Avoids :
    {A : Type 0} (x : Raised) (b : Bool) (one other : Result Raised A)
    → Avoids x one
    → Avoids x other
    → Avoids x (if b then one else other)
if-Avoids x true one other h k = h
if-Avoids x false one other h k = k

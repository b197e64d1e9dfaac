-- ===== src/Prelude/Reply.antt =====
-- What a handler answers: a value, or the exception that it throws, by its class and message.
use Prim.Native.String.{String}
use mathlib.Core.Path.{◌≡◌}
use mathlib.Core.Option.{Option, none, some}

pub data HttpException : Type 0 where
  bad_request forbidden not_found conflict unprocessable : String → HttpException

pub data Reply {ℓ} (A : Type ℓ) : Type ℓ where
  done : A → Reply A
  refused : HttpException → Reply A

-- `if (!x) throw …`
abbrev pub require {ℓ} : {A : Type ℓ} → HttpException → Option A → Reply A
require e none = refused e
require e (some a) = done a

pub done-injective {ℓ} : {A : Type ℓ} {a b : A} → done a ≡ done b → a ≡ b
done-injective h = cc

-- ===== src/Shmmq/Code.antt =====
-- shmmq/shmmq.c: the error numbers, the table of messages and `shmmq_get_errstr`.
use Prim.Native.String.{String}
use cclab.Base.{ℕ, ◌≡◌, refl, Option, none, some, List, [], ◌∷◌, if◌then◌else◌, ltb, get_elem?}
use cclab.Base.Int.{ℤ, pos, negsuc}

-- The enumerators of the anonymous `enum`, in the source's order.
pub data Code : Type 0 where
  success invalid_argument get_semvalue set_semvalue del_semvalue shmget shmat shmdt shmctl : Code
  semaphore_p semaphore_v msgqueue_full : Code

-- The value of an enumerator.
unfoldable pub number : Code → ℕ
number Code.success = 0
number Code.invalid_argument = 1
number Code.get_semvalue = 2
number Code.set_semvalue = 3
number Code.del_semvalue = 4
number Code.shmget = 5
number Code.shmat = 6
number Code.shmdt = 7
number Code.shmctl = 8
number Code.semaphore_p = 9
number Code.semaphore_v = 10
number Code.msgqueue_full = 11

-- `errlist`. No comma stands behind its first literal, so C joins that with the second.
abbrev pub errlist : List String
errlist =
    "SuccessfulInvalid Argument" ∷ "Failed in get_semvalue" ∷ "Failed in set_semvalue"
    ∷ "Failed in del_semvalue" ∷ "Failed to shmget" ∷ "Failed to shmat" ∷ "Failed to shmdt"
    ∷ "Failed to shmctl" ∷ "Failed in semaphore_p" ∷ "Failed in semaphore_v" ∷ "Msg Queue Full" ∷ []

-- What `shmmq_get_errstr` returns: NULL, an entry of the table, or a pointer read behind its end.
pub data Message : Type 0 where
  null_pointer : Message
  text : String → Message
  past_end : Message

abbrev entry : Option String → Message
entry none = past_end
entry (some s) = text s

pub get_errstr : ℤ → Message
get_errstr (negsuc n) = null_pointer
get_errstr (pos n) = if ltb 11 n then null_pointer else entry (get_elem? errlist n)

-- What each error number is meant to say, one literal for each enumerator.
pub meaning : Code → String
meaning Code.success = "Successful"
meaning Code.invalid_argument = "Invalid Argument"
meaning Code.get_semvalue = "Failed in get_semvalue"
meaning Code.set_semvalue = "Failed in set_semvalue"
meaning Code.del_semvalue = "Failed in del_semvalue"
meaning Code.shmget = "Failed to shmget"
meaning Code.shmat = "Failed to shmat"
meaning Code.shmdt = "Failed to shmdt"
meaning Code.shmctl = "Failed to shmctl"
meaning Code.semaphore_p = "Failed in semaphore_p"
meaning Code.semaphore_v = "Failed in semaphore_v"
meaning Code.msgqueue_full = "Msg Queue Full"

-- The code whose number is one more.
abbrev pub next : Code → Option Code
next Code.success = some Code.invalid_argument
next Code.invalid_argument = some Code.get_semvalue
next Code.get_semvalue = some Code.set_semvalue
next Code.set_semvalue = some Code.del_semvalue
next Code.del_semvalue = some Code.shmget
next Code.shmget = some Code.shmat
next Code.shmat = some Code.shmdt
next Code.shmdt = some Code.shmctl
next Code.shmctl = some Code.semaphore_p
next Code.semaphore_p = some Code.semaphore_v
next Code.semaphore_v = some Code.msgqueue_full
next Code.msgqueue_full = none

-- Behind the joined first entry each message is that of the next error number, and the last error
-- number reads behind the table.
abbrev Shifted : Code → Option Code → Message → Type 0
Shifted Code.success n m = m ≡ text "SuccessfulInvalid Argument"
Shifted c none m = m ≡ past_end
Shifted c (some d) m = m ≡ text (meaning d)

-- `shmmq_get_errstr` gives number 0 the joined text "SuccessfulInvalid Argument", each number from
-- 1 to 10 the message meant for the number after it, and for 11 reads behind the table.
pub get_errstr-Shifted : (c : Code) → Shifted c (next c) (get_errstr (pos (number c)))
unfolding get_errstr number meaning
get_errstr-Shifted Code.success = refl
get_errstr-Shifted Code.msgqueue_full = refl
get_errstr-Shifted _ = refl

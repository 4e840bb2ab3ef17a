-- ===== src/State/ActivityLog/Refine.antt =====
-- The ring buffer as a list of its newest records (internal/state/activity_log.go).
use statehouse.Prelude.{
  ℕ, zero, suc, ◌+◌, ◌%◌, ◌≤◌, ◌<◌, ℤ, ◌≡◌, refl, sym, ap, ap₂, ◌∙◌, arith, List, [], ◌∷◌, length,
  take, get_or, set, length-set, get_or-set_self, get_or-set_ne, if◌then◌else◌, Str, str_eq,
  Bool-cases, inl, inr, ltb, ltb→lt,
}
use statehouse.Model.ActivityRecord.{ActivityRecord, no_record}
use statehouse.State.ActivityLog.{
  ActivityLog, activity_log_size, new_activity_log, append, update, update_from, recent,
  recent_from, slot, clipped,
}

pub record IsValid (l : ActivityLog) : Type 0 where
  pub full_length : length l.buf ≡ activity_log_size
  pub head_in : l.head < activity_log_size
  pub count_in : l.count ≤ activity_log_size

pub new_activity_log-IsValid : IsValid new_activity_log
unfolding new_activity_log
new_activity_log-IsValid = omega arith

pub append-IsValid : (l : ActivityLog) (r : ActivityRecord) → IsValid l → IsValid (append l r)
unfolding append
append-IsValid l r v = ground (arith, length-set l.buf l.head r)

update_from-IsValid :
    (l : ActivityLog) (id : Str) (fn : ActivityRecord → ActivityRecord) (i n : ℕ)
    → IsValid l
    → IsValid (update_from l id fn i n)
unfolding update_from
update_from-IsValid l id fn i zero v = v
update_from-IsValid l id fn i (suc n) v = ground (
  arith,
  update_from-IsValid l id fn (suc i) n v,
  length-set l.buf (slot l.head i) (fn (get_or l.buf (slot l.head i) no_record)),
)

pub update-IsValid :
    (l : ActivityLog) (id : Str) (fn : ActivityRecord → ActivityRecord)
    → IsValid l
    → IsValid (update l id fn)
unfolding update
update-IsValid l id fn v = update_from-IsValid l id fn 0 l.count v

-- The log as a list, newest first.
pub contents : ActivityLog → List ActivityRecord
contents l = recent_from l.buf l.head 0 l.count

-- The first record with the id is changed.
abbrev pub change_first :
    Str → (ActivityRecord → ActivityRecord) → List ActivityRecord → List ActivityRecord
change_first id fn [] = []
change_first id fn (r ∷ rs) =
    let rest = change_first id fn rs in if str_eq r.id id then fn r ∷ rs else r ∷ rest

clipped-le : (l : ActivityLog) (limit : ℤ) → clipped l limit ≤ l.count
clipped-le l limit = ground arith

-- The slots other than the head hold what they held, one place further back.
recent_from-set_head :
    (buf : List ActivityRecord) (head : ℕ) (r : ActivityRecord) (i n : ℕ)
    → head < activity_log_size
    → i + n < activity_log_size
    → recent_from (set buf head r) ((head + 1) % activity_log_size) (suc i) n
      ≡ recent_from buf head i n
unfolding recent_from
recent_from-set_head buf head r i zero h k = refl
recent_from-set_head buf head r i (suc n) h k =
    ap₂ ◌∷◌ (rw (shift) (get_or-set_ne buf head (slot head i) r no_record (omega arith)))
      (recent_from-set_head buf head r (suc i) n h (omega arith))
  where
    shift : slot ((head + 1) % activity_log_size) (suc i) ≡ slot head i
    shift = omega arith

take-recent_from :
    (buf : List ActivityRecord) (head i n m : ℕ)
    → n ≤ m
    → take n (recent_from buf head i m) ≡ recent_from buf head i n
unfolding recent_from
take-recent_from buf head i zero m h = refl
take-recent_from buf head i (suc n) zero h = absurd (omega arith)
take-recent_from buf head i (suc n) (suc m) h =
    ap₂ ◌∷◌ refl (take-recent_from buf head (suc i) n m (omega arith))

length-recent_from :
    (buf : List ActivityRecord) (head i n : ℕ) → length (recent_from buf head i n) ≡ n
unfolding recent_from
length-recent_from buf head i zero = refl
length-recent_from buf head i (suc n) = ap suc (length-recent_from buf head (suc i) n)

take_all : (rs : List ActivityRecord) (n : ℕ) → length rs ≤ n → take n rs ≡ rs
take_all [] zero h = refl
take_all [] (suc n) h = refl
take_all (r ∷ rs) zero h = absurd (omega arith)
take_all (r ∷ rs) (suc n) h = ap₂ ◌∷◌ refl (take_all rs n (omega arith))

newest :
    (l : ActivityLog) (r : ActivityRecord)
    → IsValid l
    → get_or (set l.buf l.head r) (slot ((l.head + 1) % activity_log_size) 0) no_record ≡ r
newest l r v = rw (same) (get_or-set_self l.buf l.head r no_record (omega arith))
  where
    same : slot ((l.head + 1) % activity_log_size) 0 ≡ l.head
    same = omega arith

contents_pushed :
    (l : ActivityLog) (r : ActivityRecord) (n : ℕ)
    → IsValid l
    → n < activity_log_size
    → recent_from (append l r).buf (append l r).head 0 (suc n) ≡ r ∷ recent_from l.buf l.head 0 n
unfolding append recent_from
contents_pushed l r n v h =
    ap₂ ◌∷◌ (newest l r v) (recent_from-set_head l.buf l.head r 0 n v.head_in (omega arith))

count-append :
    (l : ActivityLog) (r : ActivityRecord)
    → (append l r).count ≡ (if ltb l.count activity_log_size then suc l.count else l.count)
unfolding append
count-append l r = refl

-- In a valid log, appending puts the record in front and drops the oldest one of a full log.
pub contents-append :
    (l : ActivityLog) (r : ActivityRecord)
    → IsValid l
    → contents (append l r) ≡ take activity_log_size (r ∷ contents l)
unfolding contents
contents-append l r v = elim (Bool-cases (ltb l.count activity_log_size)) [
  | inl room ↦
      rw (count-append l r, room)
        (contents_pushed l r l.count v (ltb→lt _ _ room)
          ∙ ap (λ rs. r ∷ rs)
              (sym (
                take_all (recent_from l.buf l.head 0 l.count) 49
                  (omega (arith, length-recent_from l.buf l.head 0 l.count, ltb→lt _ _ room)))))
  | inr full ↦
      let at_end : l.count ≡ 50 = ground arith in
      rw (count-append l r, full)
        (ap (recent_from (append l r).buf (append l r).head 0) at_end
          ∙ contents_pushed l r 49 v (omega arith)
          ∙ ap (λ rs. r ∷ rs) (sym (take-recent_from l.buf l.head 0 49 l.count (omega arith))))
]

-- A limit that is not positive, or exceeds the records held, asks for all of them; any other takes
-- that many of the newest.
pub recent_lem :
    (l : ActivityLog) (limit : ℤ) → recent l limit ≡ take (clipped l limit) (contents l)
unfolding recent contents
recent_lem l limit =
    sym (take-recent_from l.buf l.head 0 (clipped l limit) l.count (clipped-le l limit))

-- A write at one place of the window shows at that place only.
recent_from-set :
    (buf : List ActivityRecord) (head j i n : ℕ) (r : ActivityRecord)
    → head < activity_log_size
    → i + n ≤ activity_log_size
    → j < i
    → recent_from (set buf (slot head j) r) head i n ≡ recent_from buf head i n
unfolding recent_from
recent_from-set buf head j i zero r h k m = refl
recent_from-set buf head j i (suc n) r h k m =
    ap₂ ◌∷◌ (get_or-set_ne buf (slot head j) (slot head i) r no_record (omega arith))
      (recent_from-set buf head j (suc i) n r h (omega arith) (omega arith))

-- The loop leaves the slots before the place where it stands as they are.
get_or-update_from :
    (l : ActivityLog) (id : Str) (fn : ActivityRecord → ActivityRecord) (j i n : ℕ)
    → l.head < activity_log_size
    → i + n ≤ activity_log_size
    → j < i
    → get_or (update_from l id fn i n).buf (slot l.head j) no_record
      ≡ get_or l.buf (slot l.head j) no_record
unfolding update_from
get_or-update_from l id fn j i zero h k m = refl
get_or-update_from l id fn j i (suc n) h k m =
    elim (Bool-cases (str_eq (get_or l.buf (slot l.head i) no_record).id id)) [
      | inl hit ↦
          rw hit (get_or-set_ne l.buf (slot l.head i) (slot l.head j) _ no_record (omega arith))
      | inr miss ↦ rw miss (get_or-update_from l id fn j (suc i) n h (omega arith) (omega arith))
    ]

contents-update_from :
    (l : ActivityLog) (id : Str) (fn : ActivityRecord → ActivityRecord) (i n : ℕ)
    → IsValid l
    → i + n ≤ activity_log_size
    → recent_from (update_from l id fn i n).buf l.head i n
      ≡ change_first id fn (recent_from l.buf l.head i n)
unfolding update_from recent_from
contents-update_from l id fn i zero v h = refl
contents-update_from l id fn i (suc n) v h =
    let entry = get_or l.buf (slot l.head i) no_record in
    ground (
      arith,
      get_or-set_self l.buf (slot l.head i) (fn entry) no_record,
      recent_from-set l.buf l.head i (suc i) n (fn entry) v.head_in,
      get_or-update_from l id fn i (suc i) n v.head_in,
      contents-update_from l id fn (suc i) n v,
    )

update_from_frame :
    (l : ActivityLog) (id : Str) (fn : ActivityRecord → ActivityRecord) (i n : ℕ)
    → ((update_from l id fn i n).head ≡ l.head) × ((update_from l id fn i n).count ≡ l.count)
unfolding update_from
update_from_frame l id fn i zero = (refl, refl)
update_from_frame l id fn i (suc n) = ground (arith, update_from_frame l id fn (suc i) n)

-- In a valid log, an update changes the newest record with the id, and no other.
pub contents-update :
    (l : ActivityLog) (id : Str) (fn : ActivityRecord → ActivityRecord)
    → IsValid l
    → contents (update l id fn) ≡ change_first id fn (contents l)
unfolding contents update
contents-update l id fn v =
    rw ((update_from_frame l id fn 0 l.count).0, (update_from_frame l id fn 0 l.count).1)
      (contents-update_from l id fn 0 l.count v (omega arith))

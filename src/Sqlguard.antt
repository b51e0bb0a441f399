-- ===== src/Sqlguard.antt =====
-- `Check` of internal/database/postgres/sqlguard/guard.go: which statements are reads. The parser is pg_query's,
-- so its tree is data here: what the function asks of each message, and the messages that it holds.
pub mod Walk
pub mod Scopes
pub mod Reads
use data_mate.Base.{
  ℕ, zero, suc, ◌+◌, Bool, true, false, not, ◌&&◌, ◌||◌, Option, none, some, List, [], ◌∷◌, ◌++◌,
  Text, contains, any, ltb, ◌==◌, if◌then◌else◌, is_empty,
}

mutual
  -- `unknown` has fields that the parser's format does not; `write` is a node that holds an INSERT,
  -- UPDATE, DELETE or MERGE; a query says whether it has an INTO or a locking clause.
  pub data Message : Type 0 where
    unknown write : Message
    relation : Text → Text → Message
    query : Bool → Bool → With → Messages → Message
    other : Messages → Message

  -- The fields of a message, in the order in which they are visited.
  pub data Messages : Type 0 where
    nil : Messages
    field : Message → Messages → Messages

  pub data With : Type 0 where
    no_with : With
    with_clause : Bool → Ctes → With

  -- `stranger` is a member that is no common table expression; the Boolean of one that is says whether
  -- its query is a SELECT.
  pub data Ctes : Type 0 where
    end : Ctes
    stranger : Ctes → Ctes
    cte : Text → Bool → Message → Ctes → Ctes

pub data Fault : Type 0 where
  invalid read_only unqualified : Fault

pub data Verdict : Type 0 where
  accepted : Verdict
  refused : Fault → Verdict

-- The maps of names that queries share with the messages below them, by their addresses.
pub record Maps : Type 0 where
  pub next : ℕ
  pub get : ℕ → List Text

-- A query's own copy of a map.
abbrev pub copy : ℕ → Maps → Maps
copy i h = record { next = suc h.next; get = λ j. if j == h.next then h.get i else h.get j }

abbrev pub bind_name : Text → ℕ → Maps → Maps
bind_name n i h = record h { get = λ j. if j == i then n ∷ h.get j else h.get j }

abbrev pub bind_names : List Text → ℕ → Maps → Maps
bind_names ns i h = record h { get = λ j. if j == i then ns ++ h.get j else h.get j }

-- A task: a message with the map that it sees, or a name that becomes visible.
pub data Task : Type 0 where
  visit : Message → ℕ → Task
  bind : Text → ℕ → Task

unfoldable pub has_stranger : Ctes → Bool
has_stranger end = false
has_stranger (stranger cs) = true
has_stranger (cte n s b cs) = has_stranger cs

unfoldable pub all_select : Ctes → Bool
all_select end = true
all_select (stranger cs) = false
all_select (cte n s b cs) = s && all_select cs

unfoldable pub names_of : Ctes → List Text
names_of end = []
names_of (stranger cs) = names_of cs
names_of (cte n s b cs) = n ∷ names_of cs

-- The two loops over the members of a WITH.
unfoldable pub with_fault : With → Option Fault
unfolding has_stranger all_select
with_fault no_with = none
with_fault (with_clause recursive cs) =
    if recursive && has_stranger cs
    then some invalid
    else if all_select cs
    then none
    else some read_only

unfoldable pub query_fault : Bool → Bool → With → Option Fault
unfolding with_fault
query_fault into locking w = if into || locking then some read_only else with_fault w

abbrev pub members : With → Ctes
members no_with = end
members (with_clause recursive cs) = cs

-- What a recursive WITH makes visible from the start.
abbrev pub group_names : With → List Text
group_names no_with = []
group_names (with_clause recursive cs) = if recursive then names_of cs else []

-- The fields go on the stack in their order, so the last one comes off first.
unfoldable pub push_fields : Messages → ℕ → List Task → List Task
push_fields nil i ts = ts
push_fields (field m ms) i ts = push_fields ms i (visit m i ∷ ts)

-- Each member's body, and its name after it.
unfoldable pub push_members : Ctes → ℕ → List Task → List Task
push_members end i ts = ts
push_members (stranger cs) i ts = push_members cs i ts
push_members (cte n s b cs) i ts = visit b i ∷ bind n i ∷ push_members cs i ts

-- What one round of the loop leaves.
pub data Round : Type 0 where
  stop : Fault → Round
  more : Maps → List Task → Round

abbrev pub query_round : Option Fault → With → Messages → ℕ → Maps → List Task → Round
query_round (some f) w ms i h ts = stop f
query_round none w ms i h ts =
    more (bind_names (group_names w) h.next (copy i h))
      (push_members (members w) h.next (push_fields ms h.next ts))

unfoldable pub round : Message → ℕ → Maps → List Task → Round
unfolding query_fault push_fields push_members names_of
round unknown i h ts = stop invalid
round write i h ts = stop read_only
round (relation schema name) i h ts =
    if is_empty schema && not (contains name (h.get i)) then stop unqualified else more h ts
round (query into locking w ms) i h ts = query_round (query_fault into locking w) w ms i h ts
round (other ms) i h ts = more h (push_fields ms i ts)

abbrev pub go_on : (Maps → List Task → Option Verdict) → Round → Option Verdict
go_on rest (stop f) = some (refused f)
go_on rest (more h ts) = rest h ts

-- The loop; `none` where the fuel is spent.
unfoldable pub run : ℕ → Maps → List Task → Option Verdict
run zero h ts = none
run (suc n) h [] = some accepted
run (suc n) h (visit m i ∷ ts) = go_on (run n) (round m i h ts)
run (suc n) h (bind name i ∷ ts) = run n (bind_name name i h) ts

-- What kind of statement the parser found.
pub data Statement : Type 0 where
  select show unlisted : Statement
  explain : Bool → Statement

pub record Tree : Type 0 where
  pub statements : List Statement
  pub message : Message

-- An EXPLAIN of a query is a read.
abbrev pub is_read : Statement → Bool
is_read select = true
is_read show = true
is_read unlisted = false
is_read (explain of_query) = of_query

abbrev pub one_read : List Statement → Bool
one_read [] = false
one_read (s ∷ []) = is_read s
one_read (s ∷ t ∷ ss) = false

abbrev pub no_maps : Maps
no_maps = record { next = 1; get = λ j. [] }

check_tree : ℕ → Option Tree → Option Verdict
check_tree fuel none = some (refused invalid)
check_tree fuel (some t) =
    if one_read t.statements
    then run fuel no_maps (visit t.message 0 ∷ [])
    else some (refused read_only)

-- `Check`; `text_ok` is what utf8 says of the text and that it holds no NUL.
unfoldable pub check : (Text → Bool) → (Text → Option Tree) → ℕ → Text → Option Verdict
unfolding check_tree
check text_ok parse fuel sql =
    if text_ok sql && not (any (λ c. c == 0) sql)
    then check_tree fuel (parse sql)
    else some (refused invalid)

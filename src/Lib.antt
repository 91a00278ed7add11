-- ===== src/Lib.antt =====
-- A model of the Machine Asset Tools library, with the theorems that make it correct.
--
-- The library keeps the books of a rollup application. The ledger (include/libcma/ledger.h,
-- src/ledger.cpp, src/ledger_impl.cpp) registers assets and accounts under small numbers and holds
-- the balance of every account in every asset; deposits and withdrawals move money in and out of it,
-- transfers move it between two accounts. The parser (include/libcma/parser.h, src/parser.cpp,
-- src/parser_impl.cpp) decodes the inputs that ask for this. An application calls the two in turn.
--
-- Files and code:
--   Prelude      byte lists, signed codes, tests, arrays, the keys of maps, and methods that may throw a
--                CmaException of src/utils.h (Exceptions)
--   Amount       src/utils.cpp: amount_checked_add, amount_checked_sub, is_zero; is_one. An amount
--                is a list of bytes, the highest first; Value says which number it stands for. The
--                loops are structural, with the 16-bit and 8-bit conversions written out.
--   Map          std::unordered_map: find, insert, a write through an iterator, erase, size
--   Ledger       Types and Code are the enumerations, structures and codes of the headers.
--                Basic is the class cma_ledger_basic of src/ledger_impl.cpp: the record BasicLedger
--                has its five maps, and clear, find_asset, set_asset_supply, find_account,
--                get_account_asset_balance, set_account_asset_balance, deposit, withdraw and
--                transfer have its methods' names. Basic/Assets is retrieve_asset and
--                Basic/Accounts is retrieve_account, branch by branch; the caller's variables, some
--                behind pointers that may be null (none), are a record that the call writes.
--                Api is src/ledger.cpp over a basic ledger: the object with its magic number
--                behind a pointer, the thread's last message, and a function of its own name for
--                each of the interface's.
--                Proofs: Basic/Transactions (the branches of the transactions), Balances, Funds
--                (the money invariant), Conservation, Progress, Sound (the invariants as one);
--                Basic/Assets and Basic/Accounts each have Outcome, Registry and Lookup, and the assets
--                Distinct; Api has Outcome, Balance and Reach (sequences of calls).
--                Memory is the class cma_ledger_memory: the record MemoryLedger has its members, a
--                pointer into an array of balances is a place in it. Memory has the queries, Construct
--                the constructors, Update set_account_asset_balance with the move of the last balance
--                into a freed place, Transact the transactions, Memory/Assets and Memory/Accounts
--                retrieve_ and remove_asset and _account.
--                Proofs: Slots, Placed, Written, Removed, Setting and Fields (the arrays and the map
--                of balances), Counted (n_balances), Changed and Cases (set_account_asset_balance),
--                Dangling (the vector of virtual balances when it moves), Checks and Refine (the
--                refinement of cma_ledger_basic), Sound (the invariant of the whole ledger, with
--                Assets, Accounts, Transact, Reach, Gone, Info, HalfWay, and Reserve, Registered and
--                ReservedRun for a ledger with no more balances than its vector reserves).
--   Parser       Types has the structures of include/libcma/parser.h. Cmt is the library libcmt,
--                which is not in the repository: a record of its operations, and the record
--                Documented of what the parser relies on. Abi has the readers of
--                src/parser_impl.cpp, and Deposits, Withdrawals and Transfers its fifteen decoders;
--                Advance is the choice of a decoder by selector and, from src/parser.cpp, by type.
--                Vouchers has the voucher encoders: their state is the memory, the buffer that is
--                left of the payload, and the voucher. Out has the writing operations of libcmt and
--                the lists of numbers.
--                Proofs: Vouchers/Kept, Made and Room, Out/Lists; Packed, Chain and Selectors, Codes,
--                Bounds, Batch, Outcome.
--
-- Numbers: ids and sizes of the basic ledger are natural numbers, since it only compares and counts
-- them; the memory ledger's counters wrap around at 2 ^ 64. Sizes
-- of lists in the parser are computed on 64 bits as in the code. No definition needs fuel: every
-- loop of the code is over an array or a constant number of steps.
--
-- Choices: the order of an unordered_map is never seen, so a map is an association list. A method
-- that throws returns the state that it has left. The vector of virtual balances reserves 2048 places;
-- when an element is appended beyond its places it moves, and the pointers to the elements that it had
-- dangle: they then read a freed block, which may hold anything. How many places a vector gets when it
-- moves is the library's choice, any function of its length. The structures in the union of the parser input
-- share the names of their fields; one record has these fields, and those that the member in use
-- lacks mean nothing. A failing call of libcmt leaves the fields as they were.
--
-- Not modelled: what writes through a dangling pointer overwrite; flushing a mapped file, opening one that holds a ledger, and the containers of boost
-- that a memory ledger lies in, which are maps and lists here; cma_ledger_init_file and
-- cma_ledger_init_buffer; the inspect decoders, which read JSON; exceptions of allocation; the
-- sample applications and the account driver reader; misc/, which is a copy of code of the machine emulator.
pub mod Prelude
pub mod Amount
pub mod Map
pub mod Ledger
pub mod Parser

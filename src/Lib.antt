-- ===== src/Lib.antt =====
-- Verification of the file transfer programs under SR/projet_ftp: a master, its slaves and their
-- clients; of the shell under SR/Projet, which reads a line, cuts it into a pipe of commands and
-- starts a process for each; and of some exercises on processes under SR. The client connects to
-- the master; the master's father process writes the client's address into a pipe, and its child
-- gives the client to the first free slave; the slave connects to the client and serves its
-- commands. When a client goes away in the middle of a GET the slave reports the transfer to the
-- master, which keeps it in a list; when that client comes back the master hands the entry to the
-- slave, and the slave and the client go on from there.
--
-- Files:
--   Base       numbers, lists and byte strings that all parts use
--   Posix      what the programs call: sockets, files, directories, `fork` with `execvp` and
--              `wait`. Int has the `int` and its four bytes, Run the results of a run, Kernel,
--              Calls and Files the calls, Keeps the rules for invariants of a run, Log, Script
--              and WriteAt the lemmas on what a call writes, on a call at a known arrival and on
--              writes that follow one another
--   Protocol   SR/projet_ftp/define.h, and `attente_reponse`
--   Parse      SR/projet_ftp/parse.c and parse.h; Shape, RoundTrip and Codes are about
--              `split_in_words`, `no_endofline` and `cmd_to_int`
--   StockIp    SR/projet_ftp/stock_ip.c and stock_ip.h; Chain is the list in the heap, Lookup is
--              about the three queries, Update about `remove_by_ip`, Rules about queries in a
--              longer run, Registry about whole runs of calls
--   Slave      SR/projet_ftp/slave.c; Transfer has the two transfers, Crash the resumption,
--              Commands the cases of the switch, Session the loops of `main`. Transfer/Sends and
--              Transfer/Cut are about `envoi_fichier_au_client`, Session/Eof about the end of the
--              stream, Release about what the master is told
--   Master     SR/projet_ftp/master.c; Events has the handlers and Loop the whole of the child.
--              Tables is about the scans of the tables, Dispatch about the table `busy`, Overflow
--              about the report of a crash, Rules and Serving about what all rounds keep, Hands
--              about the dialogue with a slave
--   Client     SR/projet_ftp/client.c; Transfer has the transfers and Commands the cases of
--              the switch, Transfer/Receives is about `reception_fichier`
--   Exchange   two of the programs together, each reading what the other one writes: Handover is
--              about the master and a slave, the others about a slave and a client: Get and
--              Put are about these commands, Orders about those with a path and no answer,
--              Questions about `ls` and `pwd`, Stale about a get behind a put, Empty about a get of
--              an empty file, Resume about a transfer that was cut
--   Readcmd    SR/Projet/readcmd.c, the reader of the shell's command lines; Grammar is about what
--              it makes of a pipe, Result about the structure it returns on any line, Line about
--              `readline`, Typed about `readcmd` on a whole line
--   Shell      SR/Projet/shell.c and jobs.c; Head is about the tests of the line, Text and Overflow
--              about the text of a job, Pipe about the processes of a pipe, Wait has the wait for
--              them and Wait/OneEnds is about it
--   FirstShell SR/Projet/tst.c; Agrees compares it with shell.c, Pipe is about its wait
--   Peterson   SR/TP5/peterson.c; Exclusion is about its sections, Entry about its loops
--   TellWait   SR/TD4/tell_wait.c, two processes that tell each other to go on by signals
--   SlowWrite  SR/TD4/slow_write.c, which prints two texts in order; Order is about this order
--   MyCopy     SR/TD3/mycopy.c, which copies a file to the output; Copies is about what it writes
--   PipeCopy   SR/TP6/q3.c, two processes that copy the input to the screen through a pipe; Way,
--              Steps and Order are about what is on its way, Progress and Ends about their ends
--   SharedText SR/TP5/shm_server.c and shm_client.c, which share a segment; Segment and Letters are
--              about what the client prints, Missed about a client that comes too early
--   SignalCount SR/TP2/counterprob.c, which counts signals; Counts is about the numbers it prints
--   FileInfo   SR/TP3/fileinfo.c; Rights is about the letters of the permissions
-- The files called Examples and TypedExamples apply the theorems to concrete states.
--
-- Each program is a state (its variables and the system) and functions of the names it has in C,
-- which return a result and a new state, end the process, or are a fault: an access through NULL,
-- to a freed node or outside an array, or an overflow of an `int`. A large `main` is cut into one
-- function per case.
--
-- What arrives on a socket is a script of blocks, silences and errors, so a theorem ranges over all
-- peers; a block is at most what one `write` sent, and a `write` to a socket sends the whole of it.
-- `attente_reponse` takes one entry of the script, and how long it waits is not modelled. The file
-- system is a map from whole paths to contents, with permissions and the effect of commands as
-- functions of the state that no theorem fixes. Descriptors of sockets have fixed names.
--
-- Loops take a number of rounds and end in `out_of_fuel` without any left: `split_in_words` gets
-- the length of the line, `readline` needs at most two more than the bytes of the line, the walks
-- of StockIp need one more than the entries, a transfer one more than the blocks of the file, and
-- mycopy at most one more than its bytes. The theorems that say that a call returns state this
-- number. Peterson, SlowWrite, PipeCopy, SharedText and SignalCount are steps of two processes
-- instead, and their theorems range over all orders of the steps.
--
-- Not modelled: messages on the terminal but for the answers that the client shows, clocks, the
-- moment at which a signal comes but for the programs that are steps of two processes, and the
-- sockets that are opened at the start; what the `select` of the master's loop finds is a
-- parameter. `malloc` does not fail, and what its arrays hold at first is a part of the state
-- where the shell reads it. The other exercises of SR, a page each, are calls of the system and of
-- csapp.c one after another; csapp.c (third-party) and the other courses, which are not in C, have
-- no part here.
pub mod Base
pub mod Posix
pub mod Protocol
pub mod Parse
pub mod Slave
pub mod StockIp
pub mod Client
pub mod Master
pub mod Exchange
pub mod Readcmd
pub mod Shell
pub mod Peterson
pub mod FileInfo
pub mod MyCopy
pub mod PipeCopy
pub mod SharedText
pub mod SignalCount
pub mod TellWait
pub mod SlowWrite
pub mod FirstShell

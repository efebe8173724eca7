-- ===== src/Lib.antt =====
-- A verification of the platform-neutral core of mwfl, a C++ library for Windows desktop
-- programs. Most of the repository wraps Win32 windows; the parts modelled here are those that
-- keep state and decide: what an undo history holds, which tabs and documents are open, which
-- of them is active, what a transfer between two windows does, what closing everything together
-- does, which docking layouts are accepted, and what a command does.
--
-- * TextHistory.antt models src/text_history.cpp: Reset, Record, Undo, Redo, MarkSaved,
--   IsModified and TrimToCapacity are reset, record_text, undo, redo, mark_saved, is_modified
--   and trim_to_capacity.
-- * TabWorkspace.antt models src/tab_workspace.cpp; each method has a function of its name in
--   snake case. A pointer into the vector of tabs is a position.
-- * DocumentWorkspace.antt and its children Closing, Recent and Transfer model
--   src/document_workspace.cpp: Add, Close, CloseMany, Move, Activate, the setters, Rename, the
--   recently closed list, and TransferDocument with its plan. The other children prove what
--   they keep.
-- * Command.antt models src/command.cpp. What Invoke and Dispatch call is given back as a
--   result.
-- * DocumentCoordination.antt models src/document_coordination.cpp on top of the two:
--   BuildCoordinatedClosePlan, CommitCoordinatedCloseAfterSaves and ExecuteCoordinatedClose are
--   build_plan, commit and execute; the child Projection has the commands of the active
--   document and the routing to it.
-- * Docking.antt has the data of src/docking_workspace.cpp; its children Validate, Mutation and
--   Model have Validate, ApplyMutation with the helpers above it, and the class
--   DockLayoutModel. Propose and Commit are propose and commit.
-- * RecentFiles.antt models the list of src/recent_files.cpp; its children Format and Registry
--   have the text of the value, and LoadRecentFilesFromRegistry and SaveRecentFilesToRegistry
--   (load and save) over a registry that is a parameter.
-- * AutoHide.antt and its child Advance model src/docking_auto_hide.cpp: RequestShow,
--   RequestHide, the two setters, Advance and Reset are functions of the same names.
-- * TextSearch.antt models src/text_search.cpp: TextMatchesAt, FindTextMatch and ReplaceAllText
--   are text_matches_at, find_text_match and replace_all_text.
-- * TextFile.antt models the encodings of src/text_file.cpp: Encode and the decoding of
--   ReadTextFile are encode and decode. Its children Files and Write have ReadTextFile and
--   WriteTextFileAtomic (read_text_file and write_text_file) over the file functions of
--   Windows, which are a parameter.
-- * Stream.antt and its children have what the two session formats use of the text streams of
--   the standard library: extractions, printed fields, lines, and chains of steps that may
--   fail. A double is printed and read by a parameter.
-- * DockingDrag.antt and its child Session model src/docking_drag.cpp: HitTestDockTargets is
--   hit_test, and Begin, UpdateTarget, SetProposal, Cancel, Reset and Commit of DockDragSession
--   are begin, update_target, set_proposal, cancel, reset and commit_drag. The handlers of a
--   commit act on a native world and may throw.
-- * DockingSession.antt and its child Read model src/docking_session.cpp:
--   SerializeDockingSession and ParseDockingSession are serialize and parse_session, and its
--   child Store has LoadDockingSession and SaveDockingSessionAtomic (load and save).
-- * DocumentSession.antt and its children Read and Restore model src/document_session.cpp:
--   SerializeDocumentSession, ParseDocumentSession, CaptureWorkspaceSession and
--   RestoreWorkspaceSession are serialize, parse_session, capture and restore_session, and the
--   child Store has the load and the save. The callbacks of a restore are functions that may
--   change the target and may throw.
-- * Prelude.antt and its children hold the shared names, the standard algorithms over vectors
--   with native numbers as positions, lists of entries with IDs, and the values of a double.
--
-- A call returns the new state beside its result. IDs, revisions and positions are natural
-- numbers, and the increment of a revision wraps at 2 ^ 64; a std::wstring is the list of its
-- UTF-16 code units. The loops are recursion on lists, except for the walk over the nodes of a
-- docking layout, which has fuel for one round more than there are nodes; each round visits a
-- node that was not visited before, so that it never runs out. The parser of the recent files
-- has fuel for one round per code unit, and so have the forward search and the replacement of
-- all matches, for one round more than the text has units. A double is a whole multiple of 2 ^
-- -1074, an infinity or a NaN, of which only comparisons are used, except in the drag, where
-- their sum and product are parameters; the progress of an animation is the exact quotient.
--
-- Not modelled: failure of an allocation; what path normalisation, CompareStringOrdinal,
-- towlower, iswalnum and the UTF-8 conversions compute, which are parameters of the model, with
-- the symmetry of the comparison and, for the recent files, its transitivity assumed, and of
-- the conversions that they are inverse and what their first bytes are; the registry, a
-- parameter that is assumed to remember what was set; the numbers that std::to_wstring writes,
-- and the digits of a printed double, of which it is assumed that seventeen of them are read
-- back to the same value; and the windows. The files are a parameter of which it is assumed
-- that each call does what Windows documents of it, and that no other program writes in
-- between.
--
mod Prelude
pub mod TextHistory
pub mod TabWorkspace
pub mod DocumentWorkspace
pub mod Command
pub mod DocumentCoordination
pub mod Docking
pub mod RecentFiles
pub mod AutoHide
pub mod TextSearch
pub mod TextFile
pub mod Stream
pub mod DockingSession
pub mod DocumentSession
pub mod DockingDrag

-- ===== src/Lib.antt =====
-- Verification of the Python core of xc-ros.
--
-- The model follows the Python sources, file by file. Python's unbounded int is ℤ
-- (Prelude.Int).
--
-- Parts and files:
-- - Rostime models src/genpy/src/genpy/rostime.py. `TVal` is the record of `secs` and
--   `nsecs`; the module's functions carry the Python names (`canon` is `_canon`, `new_time`
--   and `new_duration` are the constructors on ints, `init` is `TVal.__init__`). `Time` and
--   `Duration` hold the operators of the two classes, and an operator's result is an
--   `Outcome`: a value, an exception, or `NotImplemented`. Floats are the parameter
--   `Float`.
-- - BuildQueue models src/ros/rosmake/src/rosmake/parallel_build.py. `Queue` is the state
--   of the class of that name; its methods keep their names, and `get_valid_package` is cut
--   at its wait into `attempt` and `wake`. BuildQueue.Threads has the phases of
--   `CompileThread.run` and runs any number of threads under a schedule, a list of events
--   that says which thread moves. BuildQueue.Tracker is `DependencyTracker`, with rospkg's
--   replies as a parameter, ResourceNotFound and any other exception among them; `direct`
--   is an answer without the cache. BuildQueue.Spec is an abstract board of bags of
--   packages that says what the queue and its threads promise together, and
--   BuildQueue.Refines the view of the queue as such a board.
-- - Handshake models the handshake header of src/ros/roslib/src/roslib/network.py under
--   Python 3. Texts are lists of code points and bytes are lists of numbers.
--   `decode_fields` is the loop over the fields; its fuel is the size of the header, since
--   each round moves on by five bytes at least. Handshake.Utf8 is the codec, Handshake.Read
--   the reading off a socket, with what `recv` returns as a list.
-- - Names models src/ros/roslib/src/roslib/names.py: the functions on graph names have
--   their Python names. A Python dict is an association list in order of insertion
--   (Prelude.Dict); no remappings are an empty one. Names.Environment takes the command
--   line, the environment and what the host and the process are called as arguments.
--   Names.Legal has the resource names and the legality checks, whose regular expressions
--   are written out as tests on the characters; which code points beyond ASCII count as
--   word characters is a parameter.
-- - Genmsg models src/genmsg/src/genmsg: Genmsg has names.py, Genmsg.Types the types of
--   msgs.py, Genmsg.Constants and Genmsg.Loader the reading of constants, fields, messages
--   and services in msg_loader.py, Genmsg.Spec the specifications of msgs.py, and
--   Genmsg.Context `MsgContext`. A method that changes the context returns the new one.
--   What Python's `re` and `int` know of code points beyond ASCII, its `float` of a text
--   and the truth of a literal are the parameters `Unicode` and `Builtins`. The 64-bit
--   bounds are those of the code's floating point. `get_all_depends` is on fuel, since the
--   source does not end on a cycle of dependencies; a rank of the messages bounds it
--   (Genmsg.Depends), and Genmsg.Reach has the closure of the dependencies. Genmsg.Search
--   has the search for files and the loading out of them, with the file system as a
--   parameter, and Genmsg.Search.Loading `load_depends`; its fuel is bounded by a rank in
--   the same way, and a run that is out of fuel is `none`. Genmsg.Gentools models
--   gentools.py, with the digest of a text as a parameter.
-- - Engine models src/ros/rosmake/src/rosmake/engine.py: `build_or_recurse`, on fuel for
--   Python's recursion limit, the loop `list_packages` of `main` that calls it, and
--   `only_specified`; Engine.Outcome has `RosMakeAll.build`, whose kinds of messages are a
--   `Notice`. The dependency tracker's answers, rospkg and make are parameters.
--   Engine.Drive and Engine.Builds put the build list into the queue of BuildQueue.
-- - Flags models src/ros/rosmake/src/rosmake/package_stats.py: `Flags` is the state of
--   `PackageFlagTracker` and the ROS_NOBUILD files that it writes; a query returns a value
--   or an exception, and the state. `World` is what rospkg and the file system answer.
--   Engine.Outcome asks it before it runs make.
-- - StructPattern models src/genpy/src/genpy/generate_struct.py: `State` holds the
--   variables of the loop of `reduce_pattern`, StructPattern.Runs groups a pattern into
--   runs on its own, and StructPattern.Code has the generated calls, with the list of used
--   patterns passed on.
-- - Dynamic models src/genpy/src/genpy/dynamic.py up to the generation of code:
--   `dynamic_specs` is `generate_dynamic` until the specifications are registered,
--   `generate_dynamic_specs` the function that reads a dependency, with `split` and
--   `replace` of Prelude.Str.Substring. Dynamic.Parts takes the text apart that
--   `compute_full_text` of Genmsg.Gentools writes.
-- - Message models `check_type` of src/genpy/src/genpy/message.py under Python 3. A Python
--   value is a `Value`, and `Kind` is the branch of `check_type` that a type takes. The
--   names of fields only serve the text of an error and are left out. Message.Typing has
--   the typing relation. Message.Construct is the class `Message`: an instance is the dict
--   of its attributes, and the slots of its class are an argument.
-- - Pmon models src/ros/rosunit/src/rosunit/pmon.py: `Proc` is a `Process` with its
--   identity, `Monitor` the state of `ProcessMonitor`, whose methods keep their names.
--   Pmon.Loop cuts `_run` into the steps of `tick` by the phases of its loop, and a run is
--   any list of events, each a step of the thread or a call of another one; a call of
--   `register_core_proc` is two events, since it appends to `core_procs` without the lock,
--   and `pending` lists the calls between the two. `_post_run` is one step. How a process
--   answers is an input of a step.
-- - Workspace models src/catkin/python/catkin/workspace.py, with the marker files and
--   `realpath` as parameters.
--
-- Prelude has the tests, texts, Python's str methods, dicts and integers that the parts
-- share.
--
-- Not modelled: the code generators and CMake parts, which produce text, the C++ libraries,
-- and what only calls the file system, the network or subprocesses.
pub mod BuildQueue
pub mod Dynamic
pub mod Engine
pub mod Flags
pub mod Genmsg
pub mod Handshake
pub mod Message
pub mod Names
pub mod Pmon
pub mod Prelude
pub mod Rostime
pub mod StructPattern
pub mod Workspace

-- ===== src/Lib.antt =====
-- Pyretic: the policy language and its compiler.
--
-- A Pyretic program is a policy, a function from a packet to a set of packets built from filters
-- (identity, drop, match and their negations, unions and intersections), modifications, query
-- buckets, and parallel and sequential composition. The runtime evaluates a policy on a packet that
-- reaches the controller (pyretic/core/language.py, the methods eval), and it compiles a policy to a
-- classifier, a list of rules with a match and a set of actions (the methods compile and
-- generate_classifier, on top of pyretic/core/classifier.py), which it installs on switches. The two
-- have to agree; this library models both and states where they do. Path queries are regular
-- expressions over predicates, which pyretic/lib/re.py turns into automata by derivatives, and
-- pyretic/lib/path.py sorts the predicates with decision diagrams. To install a classifier, the
-- runtime rewrites it step by step to OpenFlow rules and sends the switches the difference to the
-- rules that they have (pyretic/core/runtime.py, install_classifier). Counting buckets ask the
-- switches for the counters of their rules and call the application back. Applications are policies
-- that change with the packets that they see, as the MAC learner is.
--
-- The files:
--   Base        names of the libraries, and lemmas on Boolean tests, lists, sets, options, masks,
--               integers, and lists of elements that a test tells apart
--   Packet      pyretic/core/packet.py, class Packet, and frozendict of pyretic/core/util.py
--   Ipaddr      the interface of the third-party package ipaddr: networks, addresses and their laws
--   Match       pyretic/core/language.py, match and _match; IdentityClass and drop as predicates
--   Action      pyretic/core/language.py, the actions of rules and what evaluating one does
--   Classifier  pyretic/core/classifier.py: eval is Classifier.eval, add is __add__, sequence is
--               __rshift__, invert is __invert__, and both optimisations
--   Policy      pyretic/core/language.py: the policy classes as one data type, the operators, eval
--               and compile
--   Regex       pyretic/lib/re.py: the expressions of path queries, their smart constructors,
--               nullable, deriv, deriv_consumed, deriv_string and match_string
--   Automaton   pyretic/lib/re.py: the state and transition tables; explore and goto are
--               explore_vector and goto_vector. In Automaton/Component they are explore and goto of
--               single expressions, and make_component is makeDFA. Automaton/Vector has
--               make_null_DFA and makeDFA_vector.
--   VirtualField  pyretic/core/runtime.py, abstract_virtual_field: index, value, and the loops of
--               compress and expand over the fields of one stage
--   Fdd         pyretic/lib/path.py: FDD, Node and Leaf, and refine, merge and neg of FDDTranslator;
--               translate in Fdd/Translate, and fdd_re_tree_gen in Fdd/Generator
--   Overlap     pyretic/lib/path.py, classifier_utils, with & of filters from pyretic/core/language.py
--   Install     pyretic/core/runtime.py, install_classifier: remove_identity, remove_path_buckets,
--               controllerify, layer_3_specialize and switchify here, concretize,
--               set_next_table_port and check_OF_rules in Install/Concrete, OF_inportize, prioritize
--               and get_new_rules in Install/Rules, the two differences and
--               remove_matching_aggregate_buckets in Install/Diff, bookkeep_count_buckets in
--               Install/Bookkeeping, install_defaults and install_diff_lists in
--               Install/Messages
--   Counting    pyretic/core/language.py, CountBucket, and pull_switches_for_preds of
--               pyretic/core/runtime.py: the state here, what the methods do in Counting/Operations,
--               the calls in any order in Counting/Steps
--   MacLearner  pyretic/modules/mac_learner.py
--   Cookie      pyretic/core/runtime.py: get_cookie and get_version_table_from_cookie
--   ExtendedValues  pyretic/core/runtime.py: encode_extended_values and decode_extended_values
--   Examples    a concrete network, and each theorem on it
--
-- How the code corresponds to the model. A match or a header is a function on the nineteen fields
-- of `all_fields`, since no result depends on the order of a dictionary. Virtual fields are
-- translated away before: the dictionaries hold compilable and content headers only. The set that an
-- evaluation returns is a list of events, read up to order and repetition by `SameViews`: a packet
-- that was returned, a bucket that took a packet in, or an exception. `SameViews` forgets which
-- packet a bucket took in. A set of actions is a list without repetition. `Option` is a result or a
-- TypeError or AssertionError of the code. A FwdBucket is no action of a rule, since its classifier has
-- the action Controller; so the branches of the code that raise a TypeError for other actions are for
-- no value of the type Action. The functions that model code are structurally recursive, but for
-- four, which have fuel. In Fdd.merge each call is on diagrams with fewer nodes, so one more
-- than the nodes of the two diagrams is enough. In next_token each round raises the token, so one
-- round for each token is enough. In explore each call has one state more in the table, so one more
-- than the states that can be reached is enough, where they are finitely many; the same goes for
-- Component.explore, where == tells the expressions apart.
--
-- Path queries: the tests of a diagram compare the value of a field with a constant. `Pattern` is
-- what the dictionary of a match has as values, and `greater` is the order of Python on tests. The
-- model of policies does not tell dynamic filters from other derived policies, which translate has
-- no case for, so a test of that is an argument, of get_overlap_mode too. Leaves are read in order,
-- so that what the code stores in the leaf objects (the symbol) is a list beside the diagram. The
-- predicates of a generator are keys up to their ==; dynamic parts of predicates are left out. The
-- tables of an automaton are its state_list, from which re_table, re_map and si follow, and the
-- list of the transitions set; a state is any type with a test for ==, and for path queries a
-- vector of expressions. The automaton of one expression has re_to_exp and transition_to_metadata
-- besides, as association lists.
--
-- Regular expressions: a character is a number, a metadata object is its identity, and a list of
-- expressions is the data type `Res`. The language of an expression is a Boolean test of words
-- (Regex/Language) that the code does not have; a star is unrolled once for each letter at most,
-- which is enough since it is made of words that are not empty.
--
-- Installation: a concrete match or action is a dictionary, a function from fields to values; the
-- printing of networks is an argument. The steps that can raise return an `Option`. A priority is an
-- integer. The listed rules of one list are objects that match and priority tell apart, which is how
-- the model removes them. The fields parents and op of rules are left out. The buckets that rules
-- count into are objects that several rules share: they are a function from the numbers that actions
-- have for them. The bookkeeping of NetflowBuckets changes nothing for rules without one, and the
-- theorem on failures is about such rules.
--
-- Counting buckets: a condition variable makes a method wait while the bucket is in an update, so its
-- call is a step outside updates only. What the registered callbacks are called with is a list in the
-- state. The runtime's two functions that issue queries are flags and the list of switches that are
-- up. In the branch for rules from before the bucket, the code raises a NameError; so does the model,
-- which has no state after an exception.
--
-- What is assumed. The package ipaddr is the interface `Ipaddr`: == is equality of networks, a
-- network contains what its subnets contain, and two networks with a common address are nested.
-- `Supported` (Policy/Support) says which policies the theorem on compilation covers: matches and
-- modifications without the tagging headers, no modification of an IP address, no FwdBucket,
-- negation and if_ on filters only, and copies of a packet only in the last policy of a sequence.
-- Outside of it the code's own compilation and evaluation can differ. `Matching`
-- (Install/Inports) says that a switch lets a rule with an in-port match the packets that came
-- through it only.
--
-- Not modelled: the conversion of raw packets (ryu), the specialisation __div__ of classifiers, the
-- parents of rules, caching and locks, what a PathBucket and a FwdBucket do with packets, the bits
-- of virtual fields in the VLAN tag, the bookkeeping of NetflowBuckets in the runtime, its threads
-- and sockets and the rest of it, the NetKAT bridge, the backend, the metadata of the transitions
-- of a vector and the runs of automata on strings in pyretic/lib/re.py, the rest of
-- pyretic/lib/path.py (the predicates of leaves, re_tree_gen, the atoms and the compilation of
-- paths), the other libraries under pyretic/lib, and the other modules.
pub mod Base
pub mod Overlap
pub mod Packet
pub mod Ipaddr
pub mod MacLearner
pub mod Match
pub mod Action
pub mod Automaton
pub mod Classifier
pub mod Policy
pub mod Regex
pub mod VirtualField
pub mod Fdd
pub mod Install
pub mod Counting
pub mod Cookie
pub mod ExtendedValues
pub mod Examples

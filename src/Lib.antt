-- ===== src/Lib.antt =====
-- hahomematic: the caches, the client and the data points of the Homematic library.
--
-- The program talks to a CCU or a Homegear, the backend, over one client for each interface. A
-- client registers itself at the backend (`proxy_init`), checks the connection, and writes values
-- and paramsets; the backend's events go to the data points of the devices. Four caches stand
-- between them: the values that were sent and are not yet confirmed, the pings that wait for their
-- pong, the descriptions of devices and of paramsets that the files keep, and the rules on which
-- parameters are visible. The central unit holds the devices: it adds and deletes them, with their
-- entries in the caches, and hands events to the subscribers and pongs to the clients. A device's
-- data points and events are created from its paramset descriptions and the visibility rules. Data
-- points keep a confirmed and a temporary value, and prepare what is sent; covers, blinds, dimmers,
-- switches, locks and thermostats translate a service call to values of their data points, which a
-- collector gathers and sends in order. A thermostat also converts, validates and copies the heating
-- schedules of the week, which are entries of a paramset.
--
-- The files, and what they model (paths from the root of the repository):
--   Base                numbers, texts, lists, dicts, floats and values of Python
--   Clock               hahomematic/support.py: `changed_within_seconds`
--   Const               hahomematic/const.py: enums, constants, `DP_KEY`
--   Address             hahomematic/support.py: channel addresses
--   Converter           hahomematic/converter.py: combined parameters of blinds
--   CommandCache        hahomematic/caches/dynamic.py: `CommandCache`
--   PingPong            hahomematic/caches/dynamic.py: `PingPongCache`
--   PersistentCache     hahomematic/caches/persistent.py: `BasePersistentCache`
--   DeviceDescriptions  hahomematic/caches/persistent.py: `DeviceDescriptionCache`
--   Paramsets           hahomematic/caches/persistent.py: `ParamsetDescriptionCache`
--   Visibility          hahomematic/caches/visibility.py: `ParameterVisibilityCache`
--   Connection          hahomematic/client/__init__.py: registration and connection checks
--   Writing             hahomematic/client/__init__.py: `set_value`, `put_paramset`
--   DataPoint           hahomematic/model/data_point.py, hahomematic/model/generic/data_point.py
--   Cover               hahomematic/model/custom/cover.py
--   Generic             hahomematic/model/generic: what is sent and shown
--   Collector           hahomematic/model/data_point.py: `CallParameterCollector`
--   Creation            hahomematic/model/__init__.py, model/generic/__init__.py, model/event.py
--   Switch, Light, Lock the same files of hahomematic/model/custom
--   Schedule, Climate   hahomematic/model/custom/climate.py: schedules; thermostats
--   DeviceDetails       hahomematic/caches/dynamic.py: `DeviceDetailsCache`
--   CentralData         hahomematic/caches/dynamic.py: `CentralDataCache`
--   ValueCache          hahomematic/model/device.py: the value cache of a device
--   Central             hahomematic/central/__init__.py: devices and events
--   Tests               the theorems at concrete data
-- The children of a file hold proofs about it, but Visibility/Lines, Cover/Blind, Cover/Garage,
-- Central/Create, Central/Events, Climate/Setting, Light/Color, Schedule/Paramset, Schedule/Weekday and
-- Schedule/Service, which model further parts.
--
-- A class is a record of its fields; a method is a function from its arguments and the record to the
-- new record and its result, with the source's name (without the leading underscore; a name that
-- two classes share gets a word more). A reading of the clock, an answer of the backend and what a
-- library computes are arguments; where a method reads the clock several times it takes a function
-- from the number of the reading. A datetime is the number of microseconds since the year 1. An
-- exception is `none`, a `false` beside the state that is left, or a constructor of the outcome. A
-- dict is its list of entries in the order of insertion, a set a list. `lru_cache` is left out.
--
-- An int is signed and unbounded. A finite float is a fraction with a power of two as denominator,
-- and an operation rounds to the nearest, ties to even. Its fuel is 1074 doublings of the numerator,
-- the smallest exponent of a float, and 971 of the denominator, the largest. `show` runs on a fuel
-- of the number itself, which has no more digits. Infinite floats, those that are no number, and
-- overflow do not occur. `lower` and `strip` treat ASCII characters; `ast.literal_eval` is modelled
-- for the hexadecimal literals that the converter gives it.
--
-- Not modelled: the network, threads and the scheduler, the start and stop of the central unit, hub
-- data points, sirens, lights with a colour value or a colour temperature, names and metadata, callbacks to
-- the system, file system errors, and the conversion of a value to the type of its parameter, which
-- is an argument. How a thermostat obeys is written out after the events of tests/test_climate.py,
-- and its setpoint takes every value between the bounds of the temperature that it shows.
pub mod Base
pub mod Central
pub mod Clock
pub mod Address
pub mod Const
pub mod Connection
pub mod Cover
pub mod Converter
pub mod CommandCache
pub mod DeviceDescriptions
pub mod Paramsets
pub mod PersistentCache
pub mod PingPong
pub mod Visibility
pub mod Writing
pub mod DataPoint
pub mod Tests
pub mod DeviceDetails
pub mod CentralData
pub mod ValueCache
pub mod Climate
pub mod Collector
pub mod Creation
pub mod Generic
pub mod Schedule
pub mod Switch
pub mod Light
pub mod Lock

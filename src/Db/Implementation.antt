-- ===== src/Db/Implementation.antt =====
-- src/db/include/database_manager.h: the methods of the interface, passed on to the object manager
-- or to the property manager
use clyman.Floats.{Floats}
use clyman.Db.Interface.{DatabaseManager, PropertyManager}
use clyman.Db.Core.{Mongo, Core}
use clyman.Db.Manager
use clyman.Db.Query
use clyman.Db.Property.Manager as PropManager
use clyman.Db.Property.Query as PropQuery

module _ (fl : Floats) {W : Type 0} (mongo : Mongo fl.Double W) where
  unfoldable pub database_manager : DatabaseManager fl.Float (Core W)
  database_manager = record {
    create_object = Manager.create_object fl mongo;
    update_object = Manager.update_object fl mongo;
    update_assets = Manager.update_assets fl mongo;
    get_object = Query.get_object fl mongo;
    object_query = Query.object_query fl mongo;
    delete_object = Query.delete_object fl mongo;
    lock_object = Manager.lock_object fl mongo;
    unlock_object = Manager.unlock_object fl mongo;
    create_action = Manager.create_action fl mongo;
    update_action = Manager.update_action fl mongo;
    delete_object_action = Manager.delete_object_action fl mongo;
    create_keyframe = Manager.create_keyframe fl mongo;
    update_keyframe = Manager.update_keyframe fl mongo;
    delete_object_keyframe = Manager.delete_object_keyframe fl mongo;
  }

  -- The object manager is a property manager too, so that both have one connection and one count of
  -- failures. Here `mongo` is the driver over the collection of properties.
  unfoldable pub property_manager : PropertyManager fl.Float fl.Double (Core W)
  property_manager = record {
    create_property = PropManager.create_property fl mongo;
    update_property = PropManager.update_property fl mongo;
    get_property = PropQuery.get_property fl mongo;
    property_query = PropQuery.property_query fl mongo;
    delete_property = PropQuery.delete_property fl mongo;
    create_prop_action = PropManager.create_prop_action fl mongo;
    update_prop_action = PropManager.update_prop_action fl mongo;
    delete_property_action = PropManager.delete_property_action fl mongo;
    create_prop_keyframe = PropManager.create_prop_keyframe fl mongo;
    update_prop_keyframe = PropManager.update_prop_keyframe fl mongo;
    delete_property_keyframe = PropManager.delete_property_keyframe fl mongo;
  }
